-- ===== src/NewProtocol/Invariant.antt =====
-- The invariant of one transaction of the new version: which workers have accepted, which votes are
-- sent, and how the state of every node, log, queue and message agrees with it.
pub mod Role
pub mod Parties
pub mod Participant
use cornus.Base.{ℕ, String, ◌≡◌, ◌≢◌, Bool, true, false, Option, none, some, All, ◌⊎◌}
use cornus.Config.Transaction.{HostId, TransactionConfig}
use cornus.Dbms.Manager.{LogManager}
use cornus.Dbms.History.{decision_at}
use cornus.Handler.Prog.{RequestType, decision_completed, Packet, Prog}
use cornus.Node.Handlers.{callback}
use cornus.Protocol.System.{Shared, In}
use cornus.Protocol.World.{undecided, yes_vote, Turn, counted, fresh, ready, spent, aside, tally}
use cornus.NewProtocol.Progress.{Progress, Committed}
use cornus.Protocol.Mail.{MailOk}
use cornus.NewProtocol.System.{System, Thread, handlers_message}
use cornus.NewProtocol.Safe.{Sound, Told, Conveys, Safe}
use cornus.NewProtocol.Handlers.Coordinator.{CoordPost, Done}
use cornus.NewProtocol.Handlers.Participant.{PartPost}

-- The message that an endpoint's callback puts into a queue of `handlers`.
abbrev pub queue_message : String → Option RequestType
queue_message e = handlers_message (callback e)

module _ (config : TransactionConfig) where
  abbrev pub LogsOk : Progress → LogManager → Type 0
  LogsOk w m = (h : HostId) → decision_at m config.txid h ≡ "COMMIT" → Committed config w

  abbrev pub PacketOk : Progress → Packet → Type 0
  PacketOk w p = Conveys config w p.to (callback p.endpoint)

  abbrev pub Mails : Progress → ℕ → Shared → Type 0
  Mails w votes s =
      MailOk queue_message (PacketOk w) (Told config w) config.coordinator
        (tally w.settled config.participants) votes s.net s.inbox

  pub record SharedOk (w : Progress) (turns : HostId → Turn) (votes : ℕ) (s : Shared) : Type 0 where
    pub unasked :
        (p : HostId)
        → turns p ≡ fresh
        → (w.settled.verdict p ≡ undecided) × (w.settled.sent p ≡ false)
    pub unsent :
        (p : HostId)
        → turns p ≡ ready
        → (w.settled.verdict p ≡ yes_vote) × (w.settled.sent p ≡ false)
    pub voters : (p : HostId) (m : ℕ) → turns p ≢ counted m
    pub logs : LogsOk w s.dbms
    pub mail : Mails w votes s

  abbrev pub ThreadOk : Progress → Thread → Type 0
  ThreadOk w t = Safe config t.host Done w aside t.prog × All (λ r. r ≡ decision_completed) t.queue

  abbrev pub BackgroundOk : Progress → Option (Prog (Unit {0})) → Type 0
  BackgroundOk w none = Unit
  BackgroundOk w (some b) = Safe config config.coordinator Done w fresh b

  -- The coordinator counts votes until it has decided.
  abbrev pub CoordStand : Progress → Turn → ℕ → Type 0
  CoordStand w t votes = ((t ≡ counted votes) × (w.decision ≡ none)) ⊎ (t ≡ fresh)

  pub record Inv (s : System) : Type 0 where
    pub world : Progress
    pub turns : HostId → Turn
    pub votes : ℕ
    pub coord_turn : Turn
    pub coord_stand : CoordStand world coord_turn votes
    pub coord_safe : Safe config config.coordinator (CoordPost config) world coord_turn s.coord
    pub background_safe : BackgroundOk world s.background
    pub part_safe :
        (p : HostId)
        → In p config.participants
        → Safe config p (PartPost config p) world (turns p) (s.part p)
    pub threads_ok : All (ThreadOk world) s.threads
    pub accepted_ok : (p : HostId) → world.settled.verdict p ≡ yes_vote → s.accepted p ≡ true
    pub gave_up_ok : (p : HostId) → world.gave_up p ≡ true → s.gave_up p ≡ true
    pub shared_ok : SharedOk world turns votes s.shared
