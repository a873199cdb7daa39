-- ===== src/Handler/Alone/Logs.antt =====
-- A handler that runs alone calls the DBMS for the log of a host.
use cornus.Base.{String, ◌≡◌, refl}
use cornus.Config.Transaction.{HostId}
use cornus.Dbms.History.{decision_at}
use cornus.Dbms.Manager.{LogManager}
use cornus.Dbms.Calls.{Sets, Same, IsDecision, read_call, write_call, once_call, settled_by}
use cornus.Handler.Prog.{Cmd, Prog, act}
use cornus.Handler.Sender.{Sender}
use cornus.Handler.Paper.{log_of}
use cornus.Handler.Alone.{Node, alone, perform_on, logged}

module _ (s : Sender) (h : HostId) {A : Type 0} (k : String → Prog A) (n : Node) where
  pub alone-read :
      (m' : LogManager) × (alone (act (Cmd.log_read (log_of s h)) k) n
        ≡ alone (k (decision_at n.dbms s.config.txid h)) (record n { dbms = m' }))
      × Same n.dbms m'
  unfolding alone perform_on logged
  alone-read = let (m', e, same) = read_call n.dbms s.config.txid h in (m', rw e refl, same)

  pub alone-write :
      (d : String)
      → IsDecision d
      → (m' : LogManager) × (alone (act (Cmd.log_write d (log_of s h)) k) n
          ≡ alone (k d) (record n { dbms = m' }))
        × Sets n.dbms m' s.config.txid h d
  unfolding alone perform_on logged
  alone-write d ok =
      let (m', e, sets) = write_call n.dbms s.config.txid h d ok in (m', rw e refl, sets)

  pub alone-once :
      (d : String)
      → IsDecision d
      → (m' : LogManager) × (alone (act (Cmd.log_once d (log_of s h)) k) n
          ≡ alone (k (settled_by n.dbms s.config.txid h d)) (record n { dbms = m' }))
        × Sets n.dbms m' s.config.txid h (settled_by n.dbms s.config.txid h d)
  unfolding alone perform_on logged
  alone-once d ok =
      let (m', e, sets) = once_call n.dbms s.config.txid h d ok in (m', rw e refl, sets)
