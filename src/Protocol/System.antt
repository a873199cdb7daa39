-- ===== src/Protocol/System.antt =====
-- The state of one transaction across the nodes, and its steps. A handler makes one effect at a time;
-- the DBMS serves one request at a time; the network delivers messages in any order, or loses them.
-- A participant may start at any time, which allows more than waiting for its VOTEREQ does.
use cornus.Base.{
  ℕ, String, ◌≡◌, Bool, Option, none, some, Bytes, Bytes-discrete, List, [], ◌∷◌, ◌++◌, ◌==◌,
  if◌then◌else◌, ite, ◌⊎◌, ◌≢◌, arith,
}
use cornus.Config.Transaction.{HostId, TransactionConfig}
use cornus.Config.Host.{HostConfig}
use cornus.Dbms.Manager.{LogManager, LogAddress, new_log_manager}
use cornus.Dbms.Manager
use cornus.Handler.Prog.{
  RequestType, vote_yes, abort, commit, decision_completed, Packet, Cmd, log_once, log_write,
  log_read, send, set_timeout_start, wait, vote_request, work_commit, record_event, Answer, Prog,
  act,
}
use cornus.Handler.Sender.{Sender}
use cornus.Handler.Paper.{coordinator, participant}

-- What the nodes share: the DBMS, the messages under way, and each node's queue for this transaction.
pub record Shared : Type 0 where
  pub dbms : LogManager
  pub net : List Packet
  pub inbox : HostId → List RequestType

abbrev pub update {ℓ} : {A : Type ℓ} → (HostId → A) → HostId → A → HostId → A
update f h a j = ite (Bytes-discrete h j) a (f j)

pub update_self {ℓ} : {A : Type ℓ} (f : HostId → A) (h : HostId) (a : A) → update f h a h ≡ a
update_self f h a = ground arith

pub update_eq {ℓ} :
    {A : Type ℓ} (f : HostId → A) (h : HostId) (a : A) (p : HostId) → h ≡ p → update f h a p ≡ a
update_eq f h a p e = ground arith

pub update_same {ℓ} : {A : Type ℓ} (f : HostId → A) (h p : HostId) → update f h (f h) p ≡ f p
update_same f h p = ground arith

pub update_ne {ℓ} :
    {A : Type ℓ} (f : HostId → A) (h : HostId) (a : A) (p : HostId) → h ≢ p → update f h a p ≡ f p
update_ne f h a p n = ground arith

-- One effect of the handler on node `me`, with its answer.
pub data Effect (me : HostId) (s : Shared) : (c : Cmd) → Answer c → Shared → Type 0 where
  logs_once :
      (d : String) (a : LogAddress) (r : String) (m : LogManager)
      → Manager.log_once s.dbms a d ≡ (some r, m)
      → Effect me s (log_once d a) r (record s { dbms = m })
  logs_write :
      (d : String) (a : LogAddress) (r : String) (m : LogManager)
      → Manager.log_write s.dbms a d ≡ (some r, m)
      → Effect me s (log_write d a) r (record s { dbms = m })
  logs_read :
      (a : LogAddress) (r : String) (m : LogManager)
      → Manager.log_read s.dbms a ≡ (some r, m)
      → Effect me s (log_read a) r (record s { dbms = m })
  sends : (p : Packet) → Effect me s (send p) tt (record s { net = p ∷ s.net })
  starts_timeout : Effect me s set_timeout_start tt s
  receives :
      (t : ℕ) (r : RequestType) (rest : List RequestType)
      → s.inbox me ≡ r ∷ rest
      → Effect me s (wait t) (some r) (record s { inbox = update s.inbox me rest })
  times_out : (t : ℕ) → s.inbox me ≡ [] → Effect me s (wait t) none s
  votes : (c : Bytes) (b : Bool) → Effect me s (vote_request c) b s
  commits : (h : Bytes) → Effect me s (work_commit h) tt s
  records : (e : Bytes) → Effect me s (record_event e) tt s

-- The endpoints whose callback passes a message on to a running handler.
unfoldable pub request_type : String → Option RequestType
request_type e =
    if e == "VOTEYES"
    then some vote_yes
    else if e == "ABORT"
    then some abort
    else if e == "COMMIT"
    then some commit
    else if e == "DECISIONCOMPLETED"
    then some decision_completed
    else none

-- `onOldRequest`: the message joins the queue of the handler that it names.
unfoldable pub deliver :
    Packet → Option RequestType → (HostId → List RequestType) → HostId → List RequestType
deliver p none inbox = inbox
deliver p (some r) inbox = update inbox p.to (inbox p.to ++ r ∷ [])

pub record System : Type 0 where
  pub shared : Shared
  pub coord : Prog (Option String)
  pub part : HostId → Prog String

abbrev pub In : HostId → List HostId → Type 0
In h [] = ⊥
In h (x ∷ xs) = (x ≡ h) ⊎ In h xs

module _ (config : TransactionConfig) where
  pub data Step (s : System) : System → Type 0 where
    coordinator_acts :
        (c : Cmd) (k : Answer c → Prog (Option String)) (r : Answer c) (sh : Shared)
        → s.coord ≡ act c k
        → Effect config.coordinator s.shared c r sh
        → Step s (record s { shared = sh; coord = k r })
    participant_acts :
        (p : HostId) (c : Cmd) (k : Answer c → Prog String) (r : Answer c) (sh : Shared)
        → In p config.participants
        → s.part p ≡ act c k
        → Effect p s.shared c r sh
        → Step s (record s { shared = sh; part = update s.part p (k r) })
    delivers :
        (xs ys : List Packet) (p : Packet)
        → s.shared.net ≡ xs ++ p ∷ ys
        → Step s (record s {
          shared = record s.shared {
            net = xs ++ ys;
            inbox = deliver p (request_type p.endpoint) s.shared.inbox;
          };
        })
    loses :
        (xs ys : List Packet) (p : Packet)
        → s.shared.net ≡ xs ++ p ∷ ys
        → Step s (record s { shared = record s.shared { net = xs ++ ys } })

  module _ (hosts : HostId → HostConfig) (fuel : ℕ) where
    abbrev pub sender : HostId → Sender
    sender h = record { config = config; hostname = h; host_config = hosts h }

    unfoldable pub start : System
    start = record {
      shared = record { dbms = new_log_manager; net = []; inbox = λ _. [] };
      coord = coordinator fuel (sender config.coordinator);
      part = λ p. participant (sender p);
    }

    pub data Reach : System → Type 0 where
      here : Reach start
      next : {s t : System} → Reach s → Step s t → Reach t
