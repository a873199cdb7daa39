-- ===== src/Protocol/Effects.antt =====
-- The effects that a handler asks for, and how each can happen.
use cornus.Base.{◌≡◌, true, some, Option, List, [], ◌∷◌, refl}
use cornus.Config.Transaction.{HostId, TransactionConfig}
use cornus.Dbms.Log.{check_undefined_input}
use cornus.Dbms.Manager
use cornus.Dbms.Manager.{LogManager}
use cornus.Dbms.Calls.{once_accepted, write_accepted, read_call, settled_by}
use cornus.Dbms.History.{decision_at}
use cornus.Handler.Prog.{
  RequestType, Cmd, log_once, log_write, log_read, send, set_timeout_start, wait, vote_request,
  work_commit, record_event, Answer,
}
use cornus.Protocol.System.{
  Shared, Effect, logs_once, logs_write, logs_read, sends, starts_timeout, receives, times_out,
  votes, commits, records,
}
use cornus.Protocol.World.{log_at}

module _ (config : TransactionConfig) where
  -- A request to the DBMS is for a log of the transaction and carries a word that it accepts.
  abbrev pub Proper : Cmd → Type 0
  Proper (log_once d a) = (h : HostId) × (a ≡ log_at config h) × (check_undefined_input d ≡ true)
  Proper (log_write d a) = (h : HostId) × (a ≡ log_at config h) × (check_undefined_input d ≡ true)
  Proper (log_read a) = (h : HostId) × (a ≡ log_at config h)
  Proper _ = Unit

  module _ (me : HostId) (s : Shared) where
    pub happens : (c : Cmd) → Proper c → (a : Answer c) × (s' : Shared) × Effect me s c a s'
    happens (log_once d a) (h, e, ok) =
        let (m', f, sets) = once_accepted s.dbms config.txid h d ok in
        let r = settled_by s.dbms config.txid h d in
        let g : Manager.log_once s.dbms a d ≡ (some r, m') = rw e f in (r, _, logs_once d a r m' g)
    happens (log_write d a) (h, e, ok) =
        let (m', f, sets) = write_accepted s.dbms config.txid h d ok in
        let g : Manager.log_write s.dbms a d ≡ (some d, m') = rw e f in
        (d, _, logs_write d a d m' g)
    happens (log_read a) (h, e) =
        let (m', f, same) = read_call s.dbms config.txid h in
        let r = decision_at s.dbms config.txid h in
        let g : Manager.log_read s.dbms a ≡ (some r, m') = rw e f in (r, _, logs_read a r m' g)
    happens (send p) h = (tt, _, sends p)
    happens set_timeout_start h = (tt, _, starts_timeout)
    happens (wait t) h = waits (s.inbox me) refl
      where
        waits :
            (q : List RequestType)
            → s.inbox me ≡ q
            → (a : Option RequestType) × (s' : Shared) × Effect me s (wait t) a s'
        waits [] e = (_, _, times_out t e)
        waits (r ∷ rest) e = (_, _, receives t r rest e)
    happens (vote_request c) h = (true, _, votes c true)
    happens (work_commit x) h = (tt, _, commits x)
    happens (record_event e) h = (tt, _, records e)
