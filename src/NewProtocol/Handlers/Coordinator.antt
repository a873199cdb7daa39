-- ===== src/NewProtocol/Handlers/Coordinator.antt =====
-- The new version's coordinator (Cornus/include/transactionHandlers/Coordinator2.h) is safe, and so are
-- `finishTransaction`, the replicator and the committer.
use cornus.Base.{
  ℕ, zero, suc, ◌≤◌, ◌+◌, String, ◌≡◌, refl, subst, Option, none, some, arith, codes, [], inl, inr,
  length, Bool-cases, eqb,
}
use native.Mathlib.Numerals.{add-one}
use cornus.Config.Transaction.{TransactionConfig, config_to_string}
use cornus.Handler.Prog.{RequestType, record_event, Prog, ret, act, ◌>>=◌}
use cornus.Handler.Sender.{Sender, send_to_participants, send_to_replicators}
use cornus.Handler.Paper.{receive_vote, continue_voting}
use cornus.Handler.New.{
  new_voting, replicate, new_coordinator, tell_decision, finish_transaction, replicator, committer,
  log_final,
}
use cornus.Node.Handlers.{callback}
use cornus.Protocol.World.{Turn, counted, tally}
use cornus.Protocol.World.{AllYes, fresh, aside}
use cornus.Protocol.World.Mono.{AllYes-mono}
use cornus.NewProtocol.Progress.{
  Progress, Grows, Committed, Grows-refl, Grows-trans, Committed-mono,
}
use cornus.Protocol.World.Mono.{tally-full, tally_mono}
use cornus.NewProtocol.System.{handlers_message}
use cornus.NewProtocol.Safe.{MayDecide, Decided, Safe}
use cornus.NewProtocol.Handlers.{From, group_safe, log_final_safe}

-- A decision of the coordinator is what it has recorded; it has none while its fuel lasts not.
abbrev pub CoordPost : TransactionConfig → Progress → Option String → Type 0
CoordPost c w none = Unit
CoordPost c w (some d) = Decided c w d

-- Of the result of the other threads nothing is said.
abbrev pub Done : {A : Type 0} → Progress → A → Type 0
Done w a = Unit

module _ (s : Sender) where
  -- The decision is taken where "decided" is recorded.
  replicate_safe :
      (w : Progress) (n : ℕ) (d : String)
      → MayDecide s.config w d
      → From s (CoordPost s.config) w (counted n) (replicate s (some d))
  unfolding replicate send_to_replicators callback handlers_message
  replicate_safe w n d (inl (e, y)) = rw e (λ v l. inr (
    n,
    "COMMIT",
    refl,
    inl (refl, AllYes-mono s.config l.settled_grows y),
    λ u m decided.
        let settled : AllYes s.config u.settled =
          AllYes-mono s.config (Grows-trans l m).settled_grows y in
        group_safe s (CoordPost s.config) "WILLCOMMIT" (config_to_string s.config) u fresh _ refl
          (λ x o h. Committed-mono s.config o (settled, decided))
          (λ x o. inl (refl, Committed-mono s.config o (settled, decided)))
          s.host_config.replicators u (Grows-refl u),
  ))
  replicate_safe w n d (inr e) =
      rw e (λ v l. inr (n, "ABORT", refl, inr refl, λ u m decided. inr (refl, decided)))

  -- A vote is counted: the last one settles the decision, any other goes on.
  counted_safe :
      (fuel n : ℕ) (w : Progress)
      → suc n ≤ tally w.settled s.config.participants
      → ((v : Progress)
          → From s
              (CoordPost s.config)
              v
              (counted (suc n))
              (new_voting fuel s (suc n) >>= replicate s))
      → From s (CoordPost s.config) w (counted (suc n)) (
          receive_vote s n RequestType.vote_yes
          >>= continue_voting (new_voting fuel s)
          >>= replicate s)
  unfolding receive_vote continue_voting
  counted_safe fuel n w h rest = λ v l. inl λ u m.
      elim (Bool-cases (eqb (n + 1) (length s.config.participants))) [
        | inl e ↦ rw e (
            replicate_safe u (suc n) "COMMIT"
              (inl (
                refl,
                tally-full u.settled s.config.participants (
                    ground
                      (arith, tally_mono (Grows-trans l m).settled_grows s.config.participants)),
              ))
              u (Grows-refl u))
        | inr e ↦ rw (e, add-one) (rest u u (Grows-refl u))
      ]

  new_voting_safe :
      (fuel n : ℕ) (w : Progress)
      → From s (CoordPost s.config) w (counted n) (new_voting fuel s n >>= replicate s)
  unfolding new_voting replicate
  new_voting_safe zero n w = λ v l. tt
  new_voting_safe (suc fuel) n w = λ v l. (
    λ e. cc,
    λ u m _. replicate_safe u n "ABORT" (inr refl) u (Grows-refl u),
    λ u m _. replicate_safe u n "ABORT" (inr refl) u (Grows-refl u),
    λ u m y. new_voting_safe fuel n u u (Grows-refl u),
    λ u m k e h.
        let same : k ≡ n = cc in
        rw same (
          counted_safe fuel n u (subst (λ x. suc x ≤ tally u.settled s.config.participants) same h)
            (new_voting_safe fuel (suc n)) u (Grows-refl u)),
    λ u m e. absurd (cc),
  )

  -- The coordinator is safe from the start: it has counted nothing.
  pub new_coordinator-Safe :
      (fuel : ℕ) (w : Progress)
      → Safe s.config s.hostname (CoordPost s.config) w (counted 0) (new_coordinator fuel s)
  unfolding new_coordinator send_to_participants callback handlers_message
  new_coordinator-Safe fuel w = inl λ p q.
      group_safe s (CoordPost s.config) "VOTEREQ" (config_to_string s.config) p (counted 0) _ refl
        (λ u m h. tt) (λ u m. inl λ x n y o. new_voting_safe fuel 0 y y (Grows-refl y))
        s.config.participants p (Grows-refl p)

  tell_safe :
      (w : Progress) (t : Turn) (d : String)
      → Decided s.config w d
      → From s Done w t (tell_decision s d)
  unfolding tell_decision send_to_participants callback handlers_message
  tell_safe w t d (inl (e, y)) = rw e (
      group_safe s Done "COMMIT" [] w t _ refl (λ v l h. Committed-mono s.config l y)
        (λ v l. inl λ u m. tt) s.config.participants)
  tell_safe w t d (inr (e, g)) = rw e (
      group_safe s Done "ABORT" [] w t _ refl (λ v l h. inr (l.decision_stays "ABORT" g))
        (λ v l. inl λ u m. tt) s.config.participants)

  -- `finishTransaction` is safe after a decision that is justified.
  pub finish_transaction-Safe :
      (w : Progress) (t : Turn) (d : String)
      → Decided s.config w d
      → Safe s.config s.hostname Done w t (finish_transaction s d)
  unfolding finish_transaction send_to_replicators callback handlers_message
  finish_transaction-Safe w t d (inl (e, y)) = rw e (
      log_final_safe s Done w t _ s.config.txid s.hostname y
        (λ v l.
          group_safe s Done "DECISIONCOMPLETED" [] v t _ refl (λ u m h. refl)
            (λ u m.
              tell_safe u t "COMMIT" (inl (refl, Committed-mono s.config (Grows-trans l m) y)) u
                (Grows-refl u))
            s.host_config.replicators v (Grows-refl v))
        w (Grows-refl w))
  finish_transaction-Safe w t d (inr (e, g)) =
      rw e (tell_safe w t "ABORT" (inr (refl, g)) w (Grows-refl w))

  -- What a replicator does where it is not told in time.
  abbrev replicates : Prog String
  replicates = log_final s "COMMIT" s.config.txid s.config.coordinator >>= λ _.
      act (record_event (codes "completed")) (λ _. ret "")

  replicates_safe : (w : Progress) (t : Turn) → Committed s.config w → From s Done w t replicates
  replicates_safe w t y =
      log_final_safe s Done w t _ s.config.txid s.config.coordinator y (λ v l. inl λ u m. tt)

  -- A replicator is safe where it starts: every worker has accepted.
  pub replicator-Safe :
      (w : Progress) → Committed s.config w → Safe s.config s.hostname Done w aside (replicator s)
  unfolding replicator
  replicator-Safe w y = inl λ v l u m.
      let go : (x : Progress)
          → Grows u x
          → (t : Turn) → Safe s.config s.hostname Done x t replicates =
        λ x n t.
          replicates_safe x t (Committed-mono s.config (Grows-trans (Grows-trans l m) n) y) x
            (Grows-refl x) in
      (
        λ e. cc,
        λ x n _. go x n aside,
        λ x n _. go x n aside,
        λ x n _. go x n aside,
        λ x n k e h. go x n (counted (suc k)),
        λ x n e. inl λ o p. tt,
      )

  -- A committer is safe where it starts.
  pub committer-Safe :
      (w : Progress) (t : Turn)
      → Committed s.config w
      → Safe s.config s.hostname Done w t (committer s)
  unfolding committer
  committer-Safe w t y = (y, λ v l. tt)
