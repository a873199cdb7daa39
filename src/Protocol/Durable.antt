-- ===== src/Protocol/Durable.antt =====
-- What a step of the paper's version does to a log that holds a decision.
use cornus.Base.{
  ℕ, String, ◌≡◌, refl, sym, ◌∙◌, subst, inl, inr, Bytes-discrete, ◌==◌, if◌then◌else◌, some,
}
use cornus.Config.Transaction.{HostId, TransactionConfig}
use cornus.Config.Host.{HostConfig}
use cornus.Dbms.Manager
use cornus.Dbms.Manager.{LogManager}
use cornus.Dbms.History.{decision_at}
use cornus.Dbms.Calls.{IsDecision}
use cornus.Dbms.Steps.{Holds-self, Holds-other, log_once_step, log_write_step}
use cornus.Handler.Prog.{Cmd, Answer}
use cornus.Protocol.System.{
  In, Shared, System, Step, coordinator_acts, participant_acts, delivers, loses, Reach, Effect,
  logs_once, logs_write, logs_read, sends, starts_timeout, receives, times_out, votes, commits,
  records,
}
use cornus.Protocol.World.{World, Turn, Legit, Permit, Follow, Safe, log_at, counted}
use cornus.Protocol.Handlers.{CoordPost}
use cornus.Protocol.Invariant.{Seat, waiting, preempted, out, to_send, voted, Inv}
use cornus.Protocol.Preserve.{Reach-Inv}
use cornus.Protocol.Agreement.{Legit-same}

module _ (config : TransactionConfig) where
  not_working : {v : String} → IsDecision v → v ≡ "WORKING" → ⊥
  not_working (inl e) q = let clash : ◌≡◌ {A = String} "COMMIT" "WORKING" = sym e ∙ q in cc
  not_working (inr e) q = let clash : ◌≡◌ {A = String} "ABORT" "WORKING" = sym e ∙ q in cc

  not_vote : {v : String} → IsDecision v → v ≡ "VOTEYES" → ⊥
  not_vote (inl e) q = let clash : ◌≡◌ {A = String} "COMMIT" "VOTEYES" = sym e ∙ q in cc
  not_vote (inr e) q = let clash : ◌≡◌ {A = String} "ABORT" "VOTEYES" = sym e ∙ q in cc

  once_decided : {v : String} (x : String) → IsDecision v → (if v == "WORKING" then x else v) ≡ v
  once_decided x (inl e) = rw e refl
  once_decided x (inr e) = rw e refl

  -- A decision in a participant's log is justified.
  Seat-Legit :
      (w : World) (p : HostId) (t : Turn) (v : String)
      → In p config.participants
      → IsDecision v
      → Seat config w p t v
      → Legit config w v
  Seat-Legit w p t v i d (waiting a b c e) = absurd (not_working d e)
  Seat-Legit w p t v i d (preempted a b c e) = inr (e, (p, i, b))
  Seat-Legit w p t v i d (out a b (inl e)) = absurd (not_working d e)
  Seat-Legit w p t v i d (out a b (inr e)) = inr (e, (p, i, b))
  Seat-Legit w p t v i d (to_send a b c e) = absurd (not_vote d e)
  Seat-Legit w p t v i d (voted a b (inl e)) = absurd (not_vote d e)
  Seat-Legit w p t v i d (voted a b (inr g)) = g

  module _ (w : World) (s : Shared) (p : HostId) (d : IsDecision (decision_at s.dbms config.txid p))
      (legit : Legit config w (decision_at s.dbms config.txid p)) where
    abbrev Kept : LogManager → Type 0
    Kept m = decision_at m config.txid p ≡ decision_at s.dbms config.txid p

    once-Kept :
        (h : HostId) (x r : String) (m : LogManager)
        → Manager.log_once s.dbms (log_at config h) x ≡ (some r, m)
        → Kept m
    once-Kept h x r m e =
        let (answer, holds) = log_once_step s.dbms m config.txid h r x e in
        elim (Bytes-discrete h p) [
          | yes g ↦
              Holds-self s.dbms m config.txid h r holds p g
              ∙ answer
              ∙ subst
                  (λ q.
                    (if decision_at s.dbms config.txid q == "WORKING"
                      then x
                      else decision_at s.dbms config.txid q)
                    ≡ decision_at s.dbms config.txid p)
                  (sym g) (once_decided x d)
          | no n ↦ Holds-other s.dbms m config.txid h r holds p n
        ]

    write-Kept :
        (h : HostId) (x r : String) (m : LogManager)
        → Manager.log_write s.dbms (log_at config h) x ≡ (some r, m)
        → Legit config w x
        → Kept m
    write-Kept h x r m e g =
        let (answer, holds) = log_write_step s.dbms m config.txid h r x e in
        elim (Bytes-discrete h p) [
          | yes q ↦
              Holds-self s.dbms m config.txid h r holds p q ∙ answer ∙ Legit-same config w g legit
          | no n ↦ Holds-other s.dbms m config.txid h r holds p n
        ]

    effect-Kept :
        (me : HostId) (t : Turn) (c : Cmd) (a : Answer c) (s' : Shared) (K : Follow config c)
        → Effect me s c a s'
        → Permit config me w t c K
        → Kept s'.dbms
    effect-Kept me t c a s' K (logs_once x b r m e) (inl (h, q, i, g, k)) =
        once-Kept h x r m (subst (λ y. Manager.log_once s.dbms y x ≡ (some r, m)) q e)
    effect-Kept me t c a s' K (logs_once x b r m e) (inr (q, g, f, k, n)) =
        once-Kept me x r m (subst (λ y. Manager.log_once s.dbms y x ≡ (some r, m)) q e)
    effect-Kept me t c a s' K (logs_write x b r m e) (q, i, f, y, g, k) =
        write-Kept me x r m (subst (λ y. Manager.log_write s.dbms y x ≡ (some r, m)) q e) g
    effect-Kept me t c a s' K (logs_read b r m e) k = absurd k
    effect-Kept me t c a s' K (sends x) k = refl
    effect-Kept me t c a s' K starts_timeout k = refl
    effect-Kept me t c a s' K (receives n r rest e) k = refl
    effect-Kept me t c a s' K (times_out n e) k = refl
    effect-Kept me t c a s' K (votes b v) k = refl
    effect-Kept me t c a s' K (commits h) k = refl
    effect-Kept me t c a s' K (records e) k = refl

module _ (config : TransactionConfig) (hosts : HostId → HostConfig) (fuel : ℕ)
    (apart : ¬ In config.coordinator config.participants) where
  justified :
      {s : System} (inv : Inv config fuel s) (p : HostId)
      → In p config.participants
      → IsDecision (decision_at s.shared.dbms config.txid p)
      → Legit config inv.world (decision_at s.shared.dbms config.txid p)
  justified {s} inv p i d =
      Seat-Legit config inv.world p (inv.turns p) (decision_at s.shared.dbms config.txid p) i d
        (inv.shared_ok.seats p i)

  -- Durability in the paper's version, for a transaction whose coordinator is none of its participants:
  -- once the transaction log of a participant holds COMMIT or ABORT, no step that anyone makes changes
  -- it.
  pub decision_stays :
      (s t : System)
      → Reach config hosts fuel s
      → Step config s t
      → (p : HostId) → In p config.participants
      → IsDecision (decision_at s.shared.dbms config.txid p)
      → decision_at t.shared.dbms config.txid p ≡ decision_at s.shared.dbms config.txid p
  decision_stays s _ r (coordinator_acts c k a sh e f) p i d =
      let inv = Reach-Inv config fuel apart r in
      effect-Kept config inv.world s.shared p d (justified inv p i d) config.coordinator
        (counted inv.votes) c a sh _ f
        (subst
          (Safe config config.coordinator (CoordPost config fuel) inv.world (counted inv.votes)) e
          inv.coord_safe)
  decision_stays s _ r (participant_acts q c k a sh j e f) p i d =
      let inv = Reach-Inv config fuel apart r in
      effect-Kept config inv.world s.shared p d (justified inv p i d) q (inv.turns q) c a sh _ f
        (subst (Safe config q (Legit config) inv.world (inv.turns q)) e (inv.part_safe q j))
  decision_stays s _ r (delivers xs ys x e) p i d = refl
  decision_stays s _ r (loses xs ys x e) p i d = refl
