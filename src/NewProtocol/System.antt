-- ===== src/NewProtocol/System.antt =====
-- The state of one transaction of the new version across the nodes, and its steps. The callbacks that a
-- message reaches are those of Node/Handlers. A participant may start at any time, which allows more
-- than waiting for its VOTEREQ does; each WILLCOMMIT that arrives starts a replicator, and each
-- OVERRIDECOMMIT a committer, as `onNewRequest` does.
use cornus.Base.{ℕ, String, ◌≡◌, Bool, true, false, Option, none, some, List, [], ◌∷◌, ◌++◌, ◌||◌}
use cornus.Config.Transaction.{HostId, TransactionConfig}
use cornus.Config.Host.{HostConfig}
use cornus.Dbms.Manager.{new_log_manager}
use cornus.Handler.Prog.{RequestType, Packet, Cmd, wait, vote_request, Answer, Prog, ret, act}
use cornus.Handler.Sender.{Sender}
use cornus.Handler.New.{new_coordinator, finish_transaction, new_participant, replicator, committer}
use cornus.Node.Handlers.{
  Kind, replicator_kind, committer_kind, MapName, handlers, replicators, Callback, on_new_request,
  on_old_request, callback,
}
use cornus.Protocol.System.{In, Shared, Effect, update, deliver, sender}

-- A thread of `onNewRequest` that runs a replicator or a committer, with the queue of its handler.
pub record Thread : Type 0 where
  pub host : HostId
  pub kind : Kind
  pub queue : List RequestType
  pub prog : Prog String

-- What such a thread runs.
unfoldable pub thread_prog : Kind → Sender → Option (Prog String)
thread_prog replicator_kind s = some (replicator s)
thread_prog committer_kind s = some (committer s)
thread_prog _ s = none

-- The endpoints whose callback passes a message on to a handler of the map `handlers`.
unfoldable pub handlers_message : Option Callback → Option RequestType
handlers_message (some (on_old_request r handlers)) = some r
handlers_message _ = none

pub record System : Type 0 where
  -- `inbox` holds the queues of the map `handlers`.
  pub shared : Shared
  pub coord : Prog (Option String)
  -- The thread that runs `finishTransaction`, once it is started.
  pub background : Option (Prog (Unit {0}))
  pub part : HostId → Prog String
  -- The worker of the node has accepted the transaction.
  pub accepted : HostId → Bool
  -- The participant's wait has timed out.
  pub gave_up : HostId → Bool
  pub threads : List Thread

unfoldable pub accepts : (c : Cmd) → Answer c → Bool
accepts (vote_request c) b = b
accepts _ a = false

unfoldable pub gives_up : (c : Cmd) → Answer c → Bool
gives_up (wait t) none = true
gives_up _ a = false

-- What a thread shares with the others; its queue is its own.
abbrev pub view : Shared → Thread → Shared
view s t = record s { inbox = λ h. t.queue }

abbrev pub rejoin : Shared → Shared → Shared
rejoin s s' = record s' { inbox = s.inbox }

module _ (config : TransactionConfig) (hosts : HostId → HostConfig) (fuel : ℕ) where
  abbrev pub node : HostId → Sender
  node = sender config hosts fuel

  pub data Step (s : System) : System → Type 0 where
    coordinator_acts :
        (c : Cmd) (k : Answer c → Prog (Option String)) (r : Answer c) (sh : Shared)
        → s.coord ≡ act c k
        → Effect config.coordinator s.shared c r sh
        → Step s (record s { shared = sh; coord = k r })
    coordinator_finishes :
        (d : String)
        → s.coord ≡ ret (some d)
        → s.background ≡ none
        → Step s (record s { background = some (finish_transaction (node config.coordinator) d) })
    background_acts :
        (c : Cmd) (k : Answer c → Prog (Unit {0})) (r : Answer c) (sh : Shared)
        → s.background ≡ some (act c k)
        → Effect config.coordinator s.shared c r sh
        → Step s (record s { shared = sh; background = some (k r) })
    participant_acts :
        (p : HostId) (c : Cmd) (k : Answer c → Prog String) (r : Answer c) (sh : Shared)
        → In p config.participants
        → s.part p ≡ act c k
        → Effect p s.shared c r sh
        → Step s (record s {
          shared = sh;
          part = update s.part p (k r);
          accepted = update s.accepted p (s.accepted p || accepts c r);
          gave_up = update s.gave_up p (s.gave_up p || gives_up c r);
        })
    thread_acts :
        (ts us : List Thread) (t : Thread) (c : Cmd) (k : Answer c → Prog String) (r : Answer c)
        (sh : Shared)
        → s.threads ≡ ts ++ t ∷ us
        → t.prog ≡ act c k
        → Effect t.host (view s.shared t) c r sh
        → Step s (record s {
          shared = rejoin s.shared sh;
          threads = ts ++ record t { queue = sh.inbox t.host; prog = k r } ∷ us;
        })
    delivers :
        (xs ys : List Packet) (p : Packet)
        → s.shared.net ≡ xs ++ p ∷ ys
        → Step s (record s {
          shared = record s.shared {
            net = xs ++ ys;
            inbox = deliver p (handlers_message (callback p.endpoint)) s.shared.inbox;
          };
        })
    starts_thread :
        (xs ys : List Packet) (p : Packet) (kind : Kind) (r : RequestType) (m : MapName)
        (prog : Prog String)
        → s.shared.net ≡ xs ++ p ∷ ys
        → callback p.endpoint ≡ some (on_new_request kind r m)
        → thread_prog kind (node p.to) ≡ some prog
        → Step s (record s {
          shared = record s.shared { net = xs ++ ys };
          threads = record { host = p.to; kind = kind; queue = []; prog = prog } ∷ s.threads;
        })
    -- A replicator of the receiver is told; if an earlier one has ended or been replaced in the map,
    -- this allows more than the program does.
    tells_replicator :
        (xs ys : List Packet) (p : Packet) (r : RequestType) (ts us : List Thread) (t : Thread)
        → s.shared.net ≡ xs ++ p ∷ ys
        → callback p.endpoint ≡ some (on_old_request r replicators)
        → s.threads ≡ ts ++ t ∷ us
        → t.host ≡ p.to
        → t.kind ≡ replicator_kind
        → Step s (record s {
          shared = record s.shared { net = xs ++ ys };
          threads = ts ++ record t { queue = t.queue ++ r ∷ [] } ∷ us;
        })
    loses :
        (xs ys : List Packet) (p : Packet)
        → s.shared.net ≡ xs ++ p ∷ ys
        → Step s (record s { shared = record s.shared { net = xs ++ ys } })

  unfoldable pub start : System
  start = record {
    shared = record { dbms = new_log_manager; net = []; inbox = λ _. [] };
    coord = new_coordinator fuel (node config.coordinator);
    background = none;
    part = λ p. new_participant (node p);
    accepted = λ p. false;
    gave_up = λ p. false;
    threads = [];
  }

  pub data Reach : System → Type 0 where
    here : Reach start
    next : {s t : System} → Reach s → Step s t → Reach t
