-- ===== src/Protocol/Schedule.antt =====
-- Reachable states by evaluation: run one transaction by a list of moves.
use mathlib.Core.List.{foldl}
use cornus.Base.{ℕ, String, ◌≡◌, refl, true, Option, none, some, List, [], ◌∷◌}
use cornus.Config.Transaction.{HostId, TransactionConfig}
use cornus.Config.Host.{HostConfig}
use cornus.Dbms.Manager
use cornus.Dbms.Manager.{LogManager}
use cornus.Handler.Prog.{
  RequestType, Packet, Cmd, log_once, log_write, log_read, send, set_timeout_start, wait,
  vote_request, work_commit, record_event, Answer, Prog, ret, crash, act,
}
use cornus.Protocol.System.{
  In, Shared, System, Effect, logs_once, logs_write, logs_read, sends, starts_timeout, receives,
  times_out, votes, commits, records, coordinator_acts, participant_acts, delivers, Reach, here,
  next,
}

-- A node makes its next effect (its worker accepts, and it waits no longer than for an empty queue),
-- or the network delivers the latest message.
pub data Move : Type 0 where
  coordinator_moves arrives : Move
  participant_moves : Move

module _ (me : HostId) (s : Shared) where
  abbrev pub Outcome : Cmd → Type 0
  Outcome c = Option ((a : Answer c) × (s' : Shared) × Effect me s c a s')

  once_outcome :
      (d : String) (a : Manager.LogAddress) (x : Option String × LogManager)
      → Manager.log_once s.dbms a d ≡ x
      → Outcome (log_once d a)
  once_outcome d a (none, m) e = none
  once_outcome d a (some r, m) e = some (r, _, logs_once d a r m e)

  write_outcome :
      (d : String) (a : Manager.LogAddress) (x : Option String × LogManager)
      → Manager.log_write s.dbms a d ≡ x
      → Outcome (log_write d a)
  write_outcome d a (none, m) e = none
  write_outcome d a (some r, m) e = some (r, _, logs_write d a r m e)

  read_outcome :
      (a : Manager.LogAddress) (x : Option String × LogManager)
      → Manager.log_read s.dbms a ≡ x
      → Outcome (log_read a)
  read_outcome a (none, m) e = none
  read_outcome a (some r, m) e = some (r, _, logs_read a r m e)

  wait_outcome : (t : ℕ) (q : List RequestType) → s.inbox me ≡ q → Outcome (wait t)
  wait_outcome t [] e = some (none, _, times_out t e)
  wait_outcome t (r ∷ rest) e = some (some r, _, receives t r rest e)

  unfoldable pub outcome : (c : Cmd) → Outcome c
  unfolding once_outcome write_outcome read_outcome wait_outcome
  outcome (log_once d a) = once_outcome d a (Manager.log_once s.dbms a d) refl
  outcome (log_write d a) = write_outcome d a (Manager.log_write s.dbms a d) refl
  outcome (log_read a) = read_outcome a (Manager.log_read s.dbms a) refl
  outcome (send p) = some (tt, _, sends p)
  outcome set_timeout_start = some (tt, _, starts_timeout)
  outcome (wait t) = wait_outcome t (s.inbox me) refl
  outcome (vote_request c) = some (true, _, votes c true)
  outcome (work_commit h) = some (tt, _, commits h)
  outcome (record_event e) = some (tt, _, records e)

module _ (config : TransactionConfig) (hosts : HostId → HostConfig) (fuel : ℕ) where
  pub record Run : Type 0 where
    pub last : System
    pub reach : Reach config hosts fuel last

  coordinator_turn : (r : Run) (m : Prog (Option String)) → r.last.coord ≡ m → Run
  unfolding outcome
  coordinator_turn r (ret a) e = r
  coordinator_turn r crash e = r
  coordinator_turn r (act c k) e = elim (outcome config.coordinator r.last.shared c) [
    | none ↦ r
    | some (a, s', f) ↦ record { last = _; reach = next r.reach (coordinator_acts c k a s' e f) }
  ]

  participant_turn :
      (p : HostId)
      → In p config.participants
      → (r : Run) (m : Prog String) → r.last.part p ≡ m
      → Run
  unfolding outcome
  participant_turn p i r (ret a) e = r
  participant_turn p i r crash e = r
  participant_turn p i r (act c k) e = elim (outcome p r.last.shared c) [
    | none ↦ r
    | some (a, s', f) ↦ record {
      last = _;
      reach = next r.reach (participant_acts p c k a s' i e f);
    }
  ]

  delivery : (r : Run) (net : List Packet) → r.last.shared.net ≡ net → Run
  delivery r [] e = r
  delivery r (p ∷ ps) e = record { last = _; reach = next r.reach (delivers [] ps p e) }

  module _ (p : HostId) (i : In p config.participants) where
    turn : Run → Move → Run
    unfolding coordinator_turn participant_turn delivery
    turn r coordinator_moves = coordinator_turn r r.last.coord refl
    turn r participant_moves = participant_turn p i r (r.last.part p) refl
    turn r arrives = delivery r r.last.shared.net refl

    unfoldable pub run : List Move → Run
    unfolding turn
    run = foldl turn (record { last = _; reach = here })
