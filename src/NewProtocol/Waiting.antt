-- ===== src/NewProtocol/Waiting.antt =====
-- The waits of `sendToCoordinator` for the responses to the participants' requests, as a flag for each
-- participant beside the state of NewProtocol/System. While it stands the participant makes no effect but
-- another request. The waits of the other threads are left out, which allows more runs. Without the flags
-- the runs are runs of NewProtocol/System.
use cornus.Base.{ℕ, String, ◌≡◌, Bool, false, ◌||◌}
use cornus.Config.Transaction.{HostId, TransactionConfig}
use cornus.Config.Host.{HostConfig}
use cornus.Handler.Prog.{Cmd, Answer, Prog, act}
use cornus.Protocol.System.{In, Shared, Effect, update}
use cornus.Protocol.Waiting.{asks, MayRun}
use cornus.NewProtocol.System.{
  System, Step, participant_acts, Reach, here, next, start, accepts, gives_up,
}

pub record Waiting : Type 0 where
  pub system : System
  pub waits : HostId → Bool

-- The state after an effect of a participant.
abbrev pub participant_run :
    Waiting → HostId → (c : Cmd) → Answer c → Prog String → Shared → Waiting
participant_run s p c r m sh = record s {
  system = record s.system {
    shared = sh;
    part = update s.system.part p m;
    accepted = update s.system.accepted p (s.system.accepted p || accepts c r);
    gave_up = update s.system.gave_up p (s.system.gave_up p || gives_up c r);
  };
  waits = update s.waits p (asks c);
}

-- All responses to a participant have come.
abbrev pub participant_answered : Waiting → HostId → Waiting
participant_answered s p = record s { waits = update s.waits p false }

module _ (config : TransactionConfig) (hosts : HostId → HostConfig) (fuel : ℕ) where
  pub data WaitingStep (s : Waiting) : Waiting → Type 0 where
    participant_runs :
        (p : HostId) (c : Cmd) (k : Answer c → Prog String) (r : Answer c) (sh : Shared)
        → In p config.participants
        → s.system.part p ≡ act c k
        → MayRun c (s.waits p)
        → Effect p s.system.shared c r sh
        → WaitingStep s (participant_run s p c r (k r) sh)
    answers_participant : (p : HostId) → WaitingStep s (participant_answered s p)
    -- A step of another thread or of the network.
    others_move :
        (t : System)
        → Step config hosts fuel s.system t
        → ((p : HostId) → t.part p ≡ s.system.part p)
        → WaitingStep s (record s { system = t })

  abbrev pub start_waiting : Waiting
  start_waiting = record { system = start config hosts fuel; waits = λ p. false }

  pub data WaitingReach : Waiting → Type 0 where
    waiting_here : WaitingReach start_waiting
    waiting_next : {s t : Waiting} → WaitingReach s → WaitingStep s t → WaitingReach t

  Reach-step :
      {s t : Waiting}
      → Reach config hosts fuel s.system
      → WaitingStep s t
      → Reach config hosts fuel t.system
  Reach-step r (participant_runs p c k a sh i e m f) = next r (participant_acts p c k a sh i e f)
  Reach-step r (answers_participant p) = r
  Reach-step r (others_move t st f) = next r st

  pub WaitingReach-Reach : {s : Waiting} → WaitingReach s → Reach config hosts fuel s.system
  WaitingReach-Reach waiting_here = here
  WaitingReach-Reach (waiting_next r st) = Reach-step (WaitingReach-Reach r) st
