-- ===== src/NewProtocol/Handlers/Participant.antt =====
-- The new version's participant (Cornus/include/transactionHandlers/Participant2.h) is safe.
use cornus.Base.{String, ◌≡◌, ◌⊎◌, refl, inl, inr, Bool-cases, ◌==◌, eq_iff, arith, subst, true}
use cornus.Config.Transaction.{HostId, TransactionConfig}
use cornus.Handler.Prog.{RequestType, ◌>>=◌}
use cornus.Handler.Sender.{Sender, send_to_coordinator}
use cornus.Handler.New.{
  new_termination_protocol, settle_own, new_execution, new_finish, new_participant,
}
use cornus.Node.Handlers.{callback}
use cornus.Protocol.System.{In}
use cornus.Protocol.World.{fresh, spent, veto}
use cornus.NewProtocol.Progress.{
  Progress, Grows, Committed, Grows-refl, Grows-trans, Committed-mono,
}
use cornus.NewProtocol.System.{handlers_message}
use cornus.NewProtocol.Safe.{Told, Decided, Safe}
use cornus.NewProtocol.Safe.Mono.{Decided-mono}
use cornus.NewProtocol.Handlers.{From}

-- A participant's decision is the coordinator's; it may return ABORT also where its worker has refused or
-- it has given up waiting.
abbrev pub PartPost : TransactionConfig → HostId → Progress → String → Type 0
PartPost c p w d =
    Decided c w d ⊎ ((d ≡ "ABORT") × ((w.settled.verdict p ≡ veto) ⊎ (w.gave_up p ≡ true)))

pub PartPost-mono :
    (c : TransactionConfig) (p : HostId) {v w : Progress}
    → Grows v w
    → (d : String) → PartPost c p v d
    → PartPost c p w d
PartPost-mono c p l d (inl h) = inl (Decided-mono c l d h)
PartPost-mono c p l d (inr (e, inl h)) = inr (e, inl (l.settled_grows.veto_stays p h))
PartPost-mono c p l d (inr (e, inr h)) = inr (e, inr (l.gave_up_stays p h))

module _ (s : Sender) (i : In s.hostname s.config.participants)
    (apart : ¬ In s.config.coordinator s.config.participants) where
  abbrev Post : Progress → String → Type 0
  Post = PartPost s.config s.hostname

  commit_safe : (w : Progress) → Committed s.config w → From s Post w spent (new_finish s "COMMIT")
  unfolding new_finish
  commit_safe w y = λ v l. (
    Committed-mono s.config l y,
    λ u m. inl λ x n. inl (inl (refl, Committed-mono s.config (Grows-trans l (Grows-trans m n)) y)),
  )

  abort_safe : (w : Progress) → Post w "ABORT" → From s Post w spent (new_finish s "ABORT")
  unfolding new_finish
  abort_safe w h = λ v l. PartPost-mono s.config s.hostname l "ABORT" h

  -- A text of the own log: COMMIT and ABORT are what the participant decides, any other text it
  -- replaces by ABORT.
  settle_safe :
      (prev : String) (w : Progress)
      → w.gave_up s.hostname ≡ true
      → (prev ≡ "COMMIT" → Committed s.config w)
      → From s Post w spent (settle_own s prev >>= new_finish s)
  unfolding settle_own
  settle_safe prev w late held = elim (Bool-cases (prev == "COMMIT")) [
    | inl q ↦
        let e : prev ≡ "COMMIT" = ground (arith, eq_iff prev "COMMIT") in
        rw e (commit_safe w (held e))
    | inr q ↦ elim (Bool-cases (prev == "ABORT")) [
      | inl o ↦
          let e : prev ≡ "ABORT" = ground (arith, eq_iff prev "ABORT") in
          rw e (abort_safe w (inr (refl, inr late)))
      | inr o ↦
          rw (q, o)
            (λ v l. (
              refl,
              inr refl,
              λ u m r.
                  let still = m.gave_up_stays _ (l.gave_up_stays _ late) in
                  abort_safe u (inr (refl, inr still)) u (Grows-refl u),
            ))
    ]
  ]

  termination_safe :
      (w : Progress)
      → w.gave_up s.hostname ≡ true
      → From s Post w spent (new_termination_protocol s >>= new_finish s)
  unfolding new_termination_protocol
  termination_safe w late = λ v l. (
    refl,
    λ u m prev held.
        let still = m.gave_up_stays _ (l.gave_up_stays _ late) in
        settle_safe prev u still held u (Grows-refl u),
  )

  told_safe :
      (w : Progress)
      → Told s.config w s.hostname RequestType.abort
      → From s Post w spent (new_finish s "ABORT")
  told_safe w (inl e) = absurd (apart (subst (λ x. In x s.config.participants) e i))
  told_safe w (inr e) = abort_safe w (inl (inr (refl, e)))

  -- A participant is safe from the start: its worker has not been asked.
  pub new_participant-Safe :
      (w : Progress) → Safe s.config s.hostname Post w fresh (new_participant s)
  unfolding new_participant send_to_coordinator new_execution callback handlers_message
  new_participant-Safe w = inl λ v l. (
    i,
    refl,
    (λ u m y. inl λ x n. inr (
      refl,
      refl,
      refl,
      λ a o. inl λ b q c r. (
        (λ e. cc),
        (λ d t late. termination_safe d (late refl) d (Grows-refl d)),
        (λ d t h. inl λ f z. told_safe d h f z),
        (λ d t h. inl λ f z. commit_safe d h f z),
        (λ d t k e h. absurd (cc)),
        (λ d t e. absurd (cc)),
      ),
    )),
    (λ u m refused.
        inl (inl refl, refl, λ x n. inr (refl, inl (n.settled_grows.veto_stays _ refused)))),
  )
