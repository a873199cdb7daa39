-- ===== src/Protocol/Waiting.antt =====
-- The waits of `sendToCoordinator` and `resolveFutures` for the responses to a handler's requests. A node's
-- server responds once the callback has started its thread, so a response comes from no handler; it is
-- also there, empty, when the connection ends. The responses that a handler waits for are a flag beside
-- the state of Protocol/System: while it stands the handler makes no effect but another request of its
-- group. Without the flags the runs are runs of Protocol/System.
use cornus.Base.{ℕ, String, ◌≡◌, ◌⊎◌, Bool, true, false, Option}
use cornus.Config.Transaction.{HostId, TransactionConfig}
use cornus.Config.Host.{HostConfig}
use cornus.Handler.Prog.{
  Cmd, log_once, log_write, log_read, send, set_timeout_start, wait, vote_request, work_commit,
  record_event, Answer, Prog, act,
}
use cornus.Protocol.System.{
  Shared, System, Effect, In, update, Step, coordinator_acts, participant_acts, Reach, here, next,
  start,
}

-- Whether the effect makes a request, and so has a response to come.
abbrev pub asks : Cmd → Bool
asks (log_once d a) = false
asks (log_write d a) = false
asks (log_read a) = false
asks (send p) = true
asks set_timeout_start = false
asks (wait t) = false
asks (vote_request c) = false
asks (work_commit h) = false
asks (record_event e) = false

-- The effect need not wait for the responses to earlier requests.
abbrev pub MayRun : Cmd → Bool → Type 0
MayRun c waits = (asks c ≡ true) ⊎ (waits ≡ false)

pub record Waiting : Type 0 where
  pub system : System
  pub coord_waits : Bool
  pub part_waits : HostId → Bool

-- The state after an effect of the coordinator or of a participant.
abbrev pub coordinator_run : Waiting → Cmd → Prog (Option String) → Shared → Waiting
coordinator_run s c m sh = record s {
  system = record s.system { shared = sh; coord = m };
  coord_waits = asks c;
}

abbrev pub participant_run : Waiting → HostId → Cmd → Prog String → Shared → Waiting
participant_run s p c m sh = record s {
  system = record s.system { shared = sh; part = update s.system.part p m };
  part_waits = update s.part_waits p (asks c);
}

-- All responses to the coordinator, or to a participant, have come.
abbrev pub coordinator_answered : Waiting → Waiting
coordinator_answered s = record s { coord_waits = false }

abbrev pub participant_answered : Waiting → HostId → Waiting
participant_answered s p = record s { part_waits = update s.part_waits p false }

module _ (config : TransactionConfig) where
  pub data WaitingStep (s : Waiting) : Waiting → Type 0 where
    coordinator_runs :
        (c : Cmd) (k : Answer c → Prog (Option String)) (r : Answer c) (sh : Shared)
        → s.system.coord ≡ act c k
        → MayRun c s.coord_waits
        → Effect config.coordinator s.system.shared c r sh
        → WaitingStep s (coordinator_run s c (k r) sh)
    participant_runs :
        (p : HostId) (c : Cmd) (k : Answer c → Prog String) (r : Answer c) (sh : Shared)
        → In p config.participants
        → s.system.part p ≡ act c k
        → MayRun c (s.part_waits p)
        → Effect p s.system.shared c r sh
        → WaitingStep s (participant_run s p c (k r) sh)
    answers_coordinator : WaitingStep s (coordinator_answered s)
    answers_participant : (p : HostId) → WaitingStep s (participant_answered s p)
    -- A message is delivered or lost.
    moves_message :
        (t : System)
        → Step config s.system t
        → t.coord ≡ s.system.coord
        → ((p : HostId) → t.part p ≡ s.system.part p)
        → WaitingStep s (record s { system = t })

  module _ (hosts : HostId → HostConfig) (fuel : ℕ) where
    abbrev pub start_waiting : Waiting
    start_waiting = record {
      system = start config hosts fuel;
      coord_waits = false;
      part_waits = λ p. false;
    }

    pub data WaitingReach : Waiting → Type 0 where
      waiting_here : WaitingReach start_waiting
      waiting_next : {s t : Waiting} → WaitingReach s → WaitingStep s t → WaitingReach t

    pub Reach-step :
        {s t : Waiting}
        → Reach config hosts fuel s.system
        → WaitingStep s t
        → Reach config hosts fuel t.system
    Reach-step r (coordinator_runs c k a sh e m f) = next r (coordinator_acts c k a sh e f)
    Reach-step r (participant_runs p c k a sh i e m f) = next r (participant_acts p c k a sh i e f)
    Reach-step r answers_coordinator = r
    Reach-step r (answers_participant p) = r
    Reach-step r (moves_message t st e f) = next r st

    pub WaitingReach-Reach : {s : Waiting} → WaitingReach s → Reach config hosts fuel s.system
    WaitingReach-Reach waiting_here = here
    WaitingReach-Reach (waiting_next r st) = Reach-step (WaitingReach-Reach r) st
