-- ===== src/NewProtocol/Schedule.antt =====
-- Reachable states by evaluation: run one transaction of the new version by a list of moves.
use mathlib.Core.List.{foldl}
use cornus.Base.{ℕ, String, ◌≡◌, refl, Option, none, some, List, [], ◌∷◌}
use cornus.Config.Transaction.{HostId, TransactionConfig}
use cornus.Config.Host.{HostConfig}
use cornus.Handler.Prog.{Packet, Prog, ret, crash, act}
use cornus.Node.Handlers.{Callback, on_new_request, callback}
use cornus.Protocol.System.{In}
use cornus.Protocol.Schedule.{outcome}
use cornus.NewProtocol.System.{
  System, Thread, thread_prog, view, node, coordinator_acts, coordinator_finishes, background_acts,
  participant_acts, thread_acts, delivers, starts_thread, Reach, here, next,
}

-- Someone makes its next effect (a worker accepts, and a wait lasts no longer than for an empty queue),
-- the background thread starts, or the latest message arrives at a handler or starts one.
pub data Move : Type 0 where
  coordinator_moves background_starts background_moves participant_moves thread_moves : Move
  arrives starts : Move

module _ (config : TransactionConfig) (hosts : HostId → HostConfig) (fuel : ℕ) where
  pub record Run : Type 0 where
    pub last : System
    pub reach : Reach config hosts fuel last

  coordinator_turn : (r : Run) (m : Prog (Option String)) → r.last.coord ≡ m → Run
  coordinator_turn r (ret a) e = r
  coordinator_turn r crash e = r
  coordinator_turn r (act c k) e = elim (outcome config.coordinator r.last.shared c) [
    | none ↦ r
    | some (a, s', f) ↦ record { last = _; reach = next r.reach (coordinator_acts c k a s' e f) }
  ]

  background_start :
      (r : Run) (m : Prog (Option String)) (b : Option (Prog (Unit {0})))
      → r.last.coord ≡ m
      → r.last.background ≡ b
      → Run
  background_start r (ret (some d)) none e f = record {
    last = _;
    reach = next r.reach (coordinator_finishes d e f);
  }
  background_start r _ b e f = r

  background_turn : (r : Run) (b : Option (Prog (Unit {0}))) → r.last.background ≡ b → Run
  background_turn r (some (act c k)) e = elim (outcome config.coordinator r.last.shared c) [
    | none ↦ r
    | some (a, s', f) ↦ record { last = _; reach = next r.reach (background_acts c k a s' e f) }
  ]
  background_turn r _ e = r

  participant_turn :
      (p : HostId)
      → In p config.participants
      → (r : Run) (m : Prog String) → r.last.part p ≡ m
      → Run
  participant_turn p i r (ret a) e = r
  participant_turn p i r crash e = r
  participant_turn p i r (act c k) e = elim (outcome p r.last.shared c) [
    | none ↦ r
    | some (a, s', f) ↦ record {
      last = _;
      reach = next r.reach (participant_acts p c k a s' i e f);
    }
  ]

  thread_effect :
      (r : Run) (t : Thread) (us : List Thread) (m : Prog String)
      → r.last.threads ≡ t ∷ us
      → t.prog ≡ m
      → Run
  thread_effect r t us (ret a) g e = r
  thread_effect r t us crash g e = r
  thread_effect r t us (act c k) g e = elim (outcome t.host (view r.last.shared t) c) [
    | none ↦ r
    | some (a, s', f) ↦ record {
      last = _;
      reach = next r.reach (thread_acts [] us t c k a s' g e f);
    }
  ]

  thread_turn : (r : Run) (ts : List Thread) → r.last.threads ≡ ts → Run
  unfolding thread_effect
  thread_turn r [] g = r
  thread_turn r (t ∷ us) g = thread_effect r t us t.prog g refl

  delivery : (r : Run) (net : List Packet) → r.last.shared.net ≡ net → Run
  delivery r [] e = r
  delivery r (p ∷ ps) e = record { last = _; reach = next r.reach (delivers [] ps p e) }

  begin :
      (r : Run) (p : Packet) (ps : List Packet) (c : Option Callback)
      → r.last.shared.net ≡ p ∷ ps
      → callback p.endpoint ≡ c
      → Run
  begin r p ps (some (on_new_request kind q m)) e f =
      go (thread_prog kind (node config hosts fuel p.to)) refl
    where
      go : (o : Option (Prog String)) → thread_prog kind (node config hosts fuel p.to) ≡ o → Run
      go none h = r
      go (some prog) h = record {
        last = _;
        reach = next r.reach (starts_thread [] ps p kind q m prog e f h);
      }
  begin r p ps _ e f = r

  beginning : (r : Run) (net : List Packet) → r.last.shared.net ≡ net → Run
  unfolding begin
  beginning r [] e = r
  beginning r (p ∷ ps) e = begin r p ps (callback p.endpoint) e refl

  module _ (p : HostId) (i : In p config.participants) where
    turn : Run → Move → Run
    unfolding coordinator_turn background_start background_turn participant_turn thread_turn
        delivery beginning
    turn r coordinator_moves = coordinator_turn r r.last.coord refl
    turn r background_starts = background_start r r.last.coord r.last.background refl refl
    turn r background_moves = background_turn r r.last.background refl
    turn r participant_moves = participant_turn p i r (r.last.part p) refl
    turn r thread_moves = thread_turn r r.last.threads refl
    turn r arrives = delivery r r.last.shared.net refl
    turn r starts = beginning r r.last.shared.net refl

    unfoldable pub run : List Move → Run
    unfolding turn outcome
    run = foldl turn (record { last = _; reach = here })
