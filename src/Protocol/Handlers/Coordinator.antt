-- ===== src/Protocol/Handlers/Coordinator.antt =====
-- The coordinator of the paper's version (Cornus/include/transactionHandlers/Coordinator.h) is safe.
use cornus.Base.{
  ℕ, zero, suc, ◌≤◌, ◌+◌, String, ◌≡◌, ◌≢◌, refl, subst, Option, some, [], arith, inl, inr, length,
  Bool-cases, eqb,
}
use native.Mathlib.Numerals.{add-one}
use cornus.Config.Transaction.{HostId, config_to_string}
use cornus.Handler.Prog.{RequestType, Prog, ◌>>=◌, bind_assoc}
use cornus.Handler.Sender.{Sender}
use cornus.Handler.Paper.{
  termination_loop, receive_vote, continue_voting, voting, announce, coordinator,
}
use cornus.Protocol.System.{In, request_type}
use cornus.Protocol.World.{World, Turn, counted, tally, Legit, Safe}
use cornus.Protocol.World.Mono.{
  Later-refl, Later-trans, tally-full, tally-le, tally_mono, Legit-mono,
}
use cornus.Protocol.Handlers.{SafeFrom, group_safe, termination-Safe, CoordPost, Legit-Announces}

-- A coordinator apart from its participants, with the fuel that it has had from the start.
module _ (s : Sender) (mine : s.hostname ≡ s.config.coordinator)
    (apart : ¬ In s.config.coordinator s.config.participants) (limit : ℕ) where
  far : (h : HostId) → In h s.config.participants → h ≢ s.config.coordinator
  far h i e = apart (subst (λ x. In x s.config.participants) e i)

  Announced : World → Turn → Prog (Option String) → Type 0
  Announced w t m = SafeFrom s (CoordPost s.config limit) w t m

  decided_safe :
      (w : World) (t : Turn) (d : String)
      → Legit s.config w d
      → SafeFrom s (CoordPost s.config limit) w t (announce s (some d))
  unfolding announce
  decided_safe w t d g = λ v l u m.
      group_safe s (CoordPost s.config limit) d [] u t _
        (λ x n.
          Legit-Announces s.config x d (Legit-mono s.config (Later-trans (Later-trans l m) n) d g))
        (λ x n y o. Legit-mono s.config (Later-trans (Later-trans (Later-trans l m) n) o) d g)
        s.config.participants far u (Later-refl u)

  -- A vote is counted: the last one settles the decision, any other goes on.
  counted_safe :
      (fuel n : ℕ) (w : World)
      → suc n ≤ tally w s.config.participants
      → ((v : World)
          → SafeFrom s
              (CoordPost s.config limit)
              v
              (counted (suc n))
              (voting fuel s (suc n) >>= announce s))
      → SafeFrom s
          (CoordPost s.config limit)
          w
          (counted (suc n))
          (receive_vote s n RequestType.vote_yes >>= continue_voting (voting fuel s) >>= announce s)
  unfolding receive_vote continue_voting
  counted_safe fuel n w h rest = λ v l u m.
      elim (Bool-cases (eqb (n + 1) (length s.config.participants))) [
        | inl e ↦ rw e (
            decided_safe u (counted (suc n)) "COMMIT"
              (inl (
                refl,
                tally-full u s.config.participants
                    (ground (arith, tally_mono (Later-trans l m) s.config.participants)),
              ))
              u (Later-refl u))
        | inr e ↦ rw (e, add-one) (rest u u (Later-refl u))
      ]

  voting_safe :
      (fuel n : ℕ)
      → limit ≤ n + fuel
      → n ≤ length s.config.participants
      → (w : World)
      → SafeFrom s (CoordPost s.config limit) w (counted n) (voting fuel s n >>= announce s)
  unfolding voting announce
  voting_safe zero n enough few w = λ w' l. omega arith
  voting_safe (suc fuel) n enough few w = λ w' l. (
    λ v m. rw (bind_assoc (termination_loop s s.config.participants)) (
        termination-Safe s (CoordPost s.config limit) (counted n) _ v
          (λ u o d g. decided_safe u (counted n) d g u (Later-refl u)) s.config.participants
          (λ h i. i) (λ u o h. h) v (Later-refl v)),
    (λ v m h. decided_safe v (counted n) "ABORT" (inr (refl, h)) v (Later-refl v)),
    (λ v m h out. absurd (out mine)),
    (λ v m k e h.
        let same : k ≡ n = cc in
        rw same (
          counted_safe fuel n v (subst (λ x. suc x ≤ tally v s.config.participants) same h)
            (voting_safe fuel (suc n) (omega arith)
              (omega (arith, tally-le v s.config.participants)))
            v (Later-refl v))),
  )

  -- The coordinator is safe from the start: it has counted nothing.
  pub coordinator-Safe :
      (fuel : ℕ)
      → limit ≤ fuel
      → (w : World)
      → Safe s.config s.hostname (CoordPost s.config limit) w (counted 0) (coordinator fuel s)
  unfolding coordinator request_type
  coordinator-Safe fuel enough w = λ v l.
      group_safe s (CoordPost s.config limit) "VOTEREQ" (config_to_string s.config) v (counted 0) _
        (λ u m h n. tt)
        (λ u m x n y o. voting_safe fuel 0 (omega arith) (omega arith) y y (Later-refl y))
        s.config.participants far v (Later-refl v)
