-- ===== src/Node/Queue/Deadline.antt =====
-- A wait ends by its deadline.
use cornus.Base.{
  ℕ, ◌+◌, ◌≤◌, ◌≡◌, refl, none, List, [], ◌∷◌, ◌++◌, All, leb, Bool-cases, ◌⊎◌, inl, inr, arith,
  if◌then◌else◌,
}
use cornus.Node.Queue.{
  push, set_timeout_start, Reader, idle, blocked, Mailbox, take_front, wait_for_next_message,
  wait_for_next_message_with_timeout, wake, Event, pushes, starts_timeout, waits,
  waits_with_timeout, wakes, reads, happens, history,
}

-- The reader waits until `deadline`, or no longer.
abbrev Until : ℕ → Reader → Type 0
Until deadline r = (r ≡ idle) ⊎ (r ≡ blocked deadline)

same_deadline : (deadline d : ℕ) → Until deadline (blocked d) → d ≡ deadline
same_deadline deadline d (inl q) = absurd (cc)
same_deadline deadline d (inr q) = cc

module _ {ℓ} {T : Type ℓ} where
  -- What can happen while the reader waits.
  abbrev pub DuringWait : Event T → Type 0
  DuringWait (pushes e) = Unit
  DuringWait (wakes now) = Unit
  DuringWait _ = ⊥

  module _ (deadline : ℕ) where
    Until-take_front :
        (b : Mailbox T) (q : List T) (otherwise : Mailbox T)
        → Until deadline otherwise.reader
        → Until deadline (take_front b q otherwise).reader
    unfolding take_front
    Until-take_front b [] otherwise h = h
    Until-take_front b (e ∷ rest) otherwise h = inl refl

    Until-wake :
        (b : Mailbox T) (r : Reader) (now : ℕ)
        → b.reader ≡ r
        → Until deadline r
        → Until deadline (wake b r now).reader
    unfolding wake
    Until-wake b idle now e h = inl e
    Until-wake b (blocked d) now e h =
        Until-take_front b b.messages.q _
          (elim (Bool-cases (leb d now)) [ inl q ↦ rw q (inl refl) | inr q ↦ rw (q, e) h ])

    Until-history :
        (es : List (Event T)) (b : Mailbox T)
        → Until deadline b.reader
        → All DuringWait es
        → Until deadline (history b es).reader
    unfolding history happens push
    Until-history [] b h d = h
    Until-history (pushes e ∷ es) b h (d, ds) = Until-history es _ h ds
    Until-history (wakes now ∷ es) b h (d, ds) =
        Until-history es _ (Until-wake b b.reader now refl h) ds
    Until-history (starts_timeout now ∷ es) b h (d, ds) = absurd d
    Until-history (waits timeout ∷ es) b h (d, ds) = absurd d
    Until-history (waits_with_timeout timeout now ∷ es) b h (d, ds) = absurd d

    ended :
        (b : Mailbox T) (q : List T) (d later : ℕ)
        → d ≤ later
        → (take_front b q (
            if leb d later
            then record b { reader = idle; returned = b.returned ++ none ∷ [] }
            else b)).reader
          ≡ idle
    unfolding take_front
    ended b [] d later h = ground arith
    ended b (e ∷ rest) d later h = refl

    wake_late :
        (b : Mailbox T) (r : Reader) (later : ℕ)
        → b.reader ≡ r
        → Until deadline r
        → deadline ≤ later
        → (wake b r later).reader ≡ idle
    unfolding wake
    wake_late b idle later e h l = e
    wake_late b (blocked d) later e h l =
        ended b b.messages.q d later (omega (arith, same_deadline deadline d h))

  starts_wait :
      (b : Mailbox T) (r : Reader) (timeout now : ℕ)
      → r ≡ idle
      → Until (now + timeout) (reads b r (wait_for_next_message_with_timeout b timeout now)).reader
  unfolding reads wait_for_next_message_with_timeout wait_for_next_message set_timeout_start
  starts_wait b idle timeout now e =
      let b' : Mailbox T = record b { messages = set_timeout_start b.messages now } in
      Until-take_front (now + timeout) b' b.messages.q
        (record b' { reader = blocked (now + timeout) }) (inr refl)
  starts_wait b (blocked d) timeout now e = absurd (cc)

  -- A wait that starts at `now` with an idle reader has ended once the reader gets the mutex at or
  -- after `now + timeout`, whatever was pushed and however often it woke before.
  pub wait_ends :
      (b : Mailbox T) (timeout now later : ℕ) (es : List (Event T))
      → b.reader ≡ idle
      → All DuringWait es
      → now + timeout ≤ later
      → (happens (history (happens b (waits_with_timeout timeout now)) es) (wakes later)).reader
        ≡ idle
  unfolding happens
  wait_ends b timeout now later es e d l =
      let during = happens b (waits_with_timeout timeout now) in
      let reached =
        Until-history (now + timeout) es during (starts_wait b b.reader timeout now e) d in
      wake_late (now + timeout) (history during es) _ later refl reached l
