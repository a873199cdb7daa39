-- ===== src/Protocol/Preserve.antt =====
-- The invariant holds at the start and is kept by every step.
use cornus.Base.{ℕ, String, refl, subst, Option, none, some, false, Bytes-discrete, arith}
use mathlib.Core.Bool.{false≢true}
use cornus.Config.Transaction.{HostId, TransactionConfig}
use cornus.Config.Host.{HostConfig}
use cornus.Dbms.Steps.{decision_at-new}
use cornus.Protocol.System.{
  In, System, Step, coordinator_acts, participant_acts, delivers, loses, start, sender, Reach, here,
  next, update, update_self, update_ne,
}
use cornus.Protocol.World.{World, Later, undecided, fresh, counted, Legit, Safe}
use cornus.Protocol.World.Mono.{Legit-mono, Safe-mono}
use cornus.Protocol.Handlers.{CoordPost}
use cornus.Protocol.Handlers.Coordinator.{coordinator-Safe}
use cornus.Protocol.Handlers.Participant.{participant-Safe}
use cornus.Protocol.Invariant.{waiting, Inv}
use cornus.Protocol.Invariant.Messages.{delivered, removed}
use cornus.Protocol.Invariant.Coordinator.{coordinator-Acted}
use cornus.Protocol.Invariant.Participant.Acts.{participant-Moved}

CoordPost-mono :
    (config : TransactionConfig) (fuel : ℕ) {v w : World}
    → Later v w
    → (d : Option String) → CoordPost config fuel v d
    → CoordPost config fuel w d
CoordPost-mono config fuel l none h = h
CoordPost-mono config fuel l (some d) h = Legit-mono config l d h

module _ (config : TransactionConfig) (fuel : ℕ)
    (apart : ¬ In config.coordinator config.participants) where
  pub Step-Inv :
      {s : System} (inv : Inv config fuel s) {t : System} → Step config s t → Inv config fuel t
  Step-Inv {s} inv (coordinator_acts c k r sh e f) =
      let (w', n, l, ok', safe) =
        coordinator-Acted config inv.world inv.turns inv.votes s.shared inv.shared_ok c r sh
          (λ w' t' a. Safe config config.coordinator (CoordPost config fuel) w' t' (k a)) f
          (subst
            (Safe config config.coordinator (CoordPost config fuel) inv.world (counted inv.votes)) e
            inv.coord_safe) in
      record {
        world = w';
        turns = inv.turns;
        votes = n;
        coord_safe = safe;
        part_safe = λ p i.
            Safe-mono config l p (Legit config) (Legit-mono config l) (inv.turns p) (s.part p)
              (inv.part_safe p i);
        shared_ok = ok';
      }
  Step-Inv {s} inv (participant_acts p c k r sh i e f) =
      let (w', t', l, ok', safe) =
        participant-Moved config p i apart inv.world inv.turns inv.votes s.shared inv.shared_ok c r
          sh (λ w' t' a. Safe config p (Legit config) w' t' (k a)) f
          (subst (Safe config p (Legit config) inv.world (inv.turns p)) e (inv.part_safe p i)) in
      record {
        world = w';
        turns = update inv.turns p t';
        votes = inv.votes;
        coord_safe =
            Safe-mono config l config.coordinator (CoordPost config fuel)
              (CoordPost-mono config fuel l) (counted inv.votes) s.coord inv.coord_safe;
        part_safe = λ q j. elim (Bytes-discrete p q) [
          | yes g ↦
              subst
                (λ x.
                  Safe config x (Legit config) w' (update inv.turns p t' x)
                    (update s.part p (k r) x))
                g (rw (update_self inv.turns p t', update_self s.part p (k r)) safe)
          | no n ↦
              rw (update_ne inv.turns p t' q n, update_ne s.part p (k r) q n)
                (Safe-mono config l q (Legit config) (Legit-mono config l) (inv.turns q) (s.part q)
                  (inv.part_safe q j))
        ];
        shared_ok = ok';
      }
  Step-Inv {s} inv (delivers xs ys p e) = record {
    world = inv.world;
    turns = inv.turns;
    votes = inv.votes;
    coord_safe = inv.coord_safe;
    part_safe = inv.part_safe;
    shared_ok = delivered config inv.world inv.turns inv.votes s.shared xs ys p e inv.shared_ok;
  }
  Step-Inv {s} inv (loses xs ys p e) = record {
    world = inv.world;
    turns = inv.turns;
    votes = inv.votes;
    coord_safe = inv.coord_safe;
    part_safe = inv.part_safe;
    shared_ok = removed config inv.world inv.turns inv.votes s.shared xs ys p e inv.shared_ok;
  }

  abbrev unsettled : World
  unsettled = record {
    verdict = λ p. undecided;
    sent = λ p. false;
    honest = λ p h. absurd (false≢true h);
  }

  start-Inv : (hosts : HostId → HostConfig) → Inv config fuel (start config hosts fuel)
  unfolding start
  start-Inv hosts = record {
    world = unsettled;
    turns = λ p. fresh;
    votes = 0;
    coord_safe =
        coordinator-Safe (sender config hosts fuel config.coordinator) refl apart fuel fuel
          (omega arith) unsettled;
    part_safe = λ p i. participant-Safe (sender config hosts fuel p) unsettled i;
    shared_ok = record {
      seats = λ p i. waiting refl refl refl (decision_at-new config.txid p);
      packets = tt;
      queues = λ h. tt;
      counts = omega arith;
    };
  }

  pub Reach-Inv :
      {hosts : HostId → HostConfig} {s : System} → Reach config hosts fuel s → Inv config fuel s
  Reach-Inv {hosts} here = start-Inv hosts
  Reach-Inv (next r st) = Step-Inv (Reach-Inv r) st
