-- ===== src/Protocol/Handlers/Participant.antt =====
-- The participant of the paper's version (Cornus/include/transactionHandlers/Participant.h) is safe.
use cornus.Base.{String, ◌≡◌, refl, inl, inr}
use cornus.Handler.Prog.{wait, act, ◌>>=◌}
use cornus.Handler.Sender.{Sender}
use cornus.Handler.Paper.{execution, finish_decision, apply_decision, refuse, participant}
use cornus.Protocol.System.{In, request_type}
use cornus.Protocol.World.{World, yes_vote, fresh, spent, SomeVeto, Legit, Safe}
use cornus.Protocol.World.Mono.{Later-refl, Later-trans, AllYes-mono, SomeVeto-mono, Legit-mono}
use cornus.Protocol.Handlers.{SafeFrom, termination-Safe}

module _ (s : Sender) where
  abbrev PartPost : World → String → Type 0
  PartPost = Legit s.config

  applied-Safe :
      (d : String) (w : World)
      → Legit s.config w d
      → Safe s.config s.hostname PartPost w spent (finish_decision s d)
  unfolding finish_decision
  applied-Safe d w (inl (e, h)) =
      rw e (h, λ v l u m. inl (refl, AllYes-mono s.config (Later-trans l m) h))
  applied-Safe d w (inr (e, h)) = rw e (inr (refl, h))

  apply_safe :
      (w : World) (d : String)
      → w.verdict s.hostname ≡ yes_vote
      → In s.hostname s.config.participants
      → Legit s.config w d
      → SafeFrom s PartPost w spent (apply_decision s d)
  unfolding apply_decision
  apply_safe w d y i g = λ v l. (
    refl,
    i,
    refl,
    l.yes_stays s.hostname y,
    Legit-mono s.config l d g,
    λ u m r. applied-Safe d u (Legit-mono s.config (Later-trans l m) d g),
  )

  -- A participant that has sent its vote waits, decides and writes the decision to its log.
  waiting_safe :
      (w : World)
      → w.verdict s.hostname ≡ yes_vote
      → In s.hostname s.config.participants
      → SafeFrom s PartPost w spent
          (act (wait s.host_config.timeout) (λ r. execution s r >>= apply_decision s))
  unfolding execution
  waiting_safe w y i = λ v l. (
    (λ u m.
        termination-Safe s PartPost spent (apply_decision s) u
          (λ x n d g.
            apply_safe x d (n.yes_stays _ (m.yes_stays _ (l.yes_stays _ y))) i g x (Later-refl x))
          s.config.participants (λ h j. j) (λ x n h. h) u (Later-refl u)),
    (λ u m h x n.
        apply_safe x "ABORT" (n.yes_stays _ (m.yes_stays _ (l.yes_stays _ y))) i
          (inr (refl, SomeVeto-mono s.config n h)) x (Later-refl x)),
    (λ u m h out x n.
        apply_safe x "COMMIT" (n.yes_stays _ (m.yes_stays _ (l.yes_stays _ y))) i
          (inl (refl, AllYes-mono s.config n h)) x (Later-refl x)),
    (λ u m n e h. cc),
  )

  refuse-Safe :
      (w : World) → SomeVeto s.config w → Safe s.config s.hostname PartPost w spent (refuse s)
  unfolding refuse request_type
  refuse-Safe w h = (h, λ v l. inr (refl, SomeVeto-mono s.config l h))

  -- A participant is safe from the start: its vote is not settled.
  pub participant-Safe :
      (w : World)
      → In s.hostname s.config.participants
      → Safe s.config s.hostname PartPost w fresh (participant s)
  unfolding participant request_type
  participant-Safe w i = λ v l. (
    refl,
    (λ u m. inr (
      refl,
      refl,
      refl,
      (λ x n y z o. (
        refl,
        refl,
        refl,
        λ b q c r d t.
            waiting_safe d (t.yes_stays _ (r.yes_stays _ (q.yes_stays _ (o.yes_stays _ y)))) i d
              (Later-refl d),
      )),
      (λ x n h. refuse-Safe x h),
    )),
    (λ u m h. refuse-Safe u h),
  )
