-- ===== src/Node/Queue/Order.antt =====
-- Order and completeness of the messages that a queue passes on.
use cornus.Base.{
  ℕ, ◌≡◌, refl, Option, none, some, List, [], ◌∷◌, ◌++◌, append_assoc, append-nil, leb, Bool-cases,
  inl, inr, ◌∙◌, ap,
}
use cornus.Node.Queue.{
  push, set_timeout_start, Reader, idle, blocked, Mailbox, take_front, wait_for_next_message,
  wait_for_next_message_with_timeout, wake, Event, pushes, starts_timeout, waits,
  waits_with_timeout, wakes, reads, happens, history,
}

module _ {ℓ} {T : Type ℓ} where
  -- The messages among what the waits returned.
  abbrev pub received : List (Option T) → List T
  received [] = []
  received (none ∷ rs) = received rs
  received (some e ∷ rs) = e ∷ received rs

  abbrev pub pushed : List (Event T) → List T
  pushed [] = []
  pushed (pushes e ∷ es) = e ∷ pushed es
  pushed (_ ∷ es) = pushed es

  -- What has been received, then what is still queued.
  abbrev pub passed : Mailbox T → List T
  passed b = received b.returned ++ b.messages.q

  received-append : (rs ss : List (Option T)) → received (rs ++ ss) ≡ received rs ++ received ss
  received-append [] ss = refl
  received-append (none ∷ rs) ss = received-append rs ss
  received-append (some e ∷ rs) ss = ap (◌∷◌ e) (received-append rs ss)

  passed-take_front :
      (b : Mailbox T) (q : List T) (otherwise : Mailbox T)
      → b.messages.q ≡ q
      → passed otherwise ≡ passed b
      → passed (take_front b q otherwise) ≡ passed b
  unfolding take_front
  passed-take_front b [] otherwise e h = h
  passed-take_front b (x ∷ rest) otherwise e h = rw (received-append, append_assoc, e) refl

  passed-timed_out :
      (b : Mailbox T)
      → passed (record b { reader = idle; returned = b.returned ++ none ∷ [] }) ≡ passed b
  passed-timed_out b = rw (received-append, append-nil) refl

  passed-wake : (b : Mailbox T) (r : Reader) (now : ℕ) → passed (wake b r now) ≡ passed b
  unfolding wake
  passed-wake b idle now = refl
  passed-wake b (blocked deadline) now =
      passed-take_front b b.messages.q _ refl (elim (Bool-cases (leb deadline now)) [
        | inl e ↦ rw e (passed-timed_out b)
        | inr e ↦ rw e refl
      ])

  passed-reads :
      (b : Mailbox T) (r : Reader) (called : Mailbox T)
      → passed called ≡ passed b
      → passed (reads b r called) ≡ passed b
  unfolding reads
  passed-reads b idle called h = h
  passed-reads b (blocked deadline) called h = refl

  passed-happens :
      (b : Mailbox T) (e : Event T) → passed (happens b e) ≡ passed b ++ pushed (e ∷ [])
  unfolding happens push set_timeout_start wait_for_next_message wait_for_next_message_with_timeout
  passed-happens b (pushes e) = rw append_assoc refl
  passed-happens b (starts_timeout now) = rw append-nil (passed-reads b b.reader _ refl)
  passed-happens b (waits timeout) =
      rw append-nil (passed-reads b b.reader _ (passed-take_front b b.messages.q _ refl refl))
  passed-happens b (waits_with_timeout timeout now) = rw append-nil (
      passed-reads b b.reader _ (
        passed-take_front (record b { messages = set_timeout_start b.messages now }) b.messages.q _
          refl refl))
  passed-happens b (wakes now) = rw append-nil (passed-wake b b.reader now)

  pushed-cons : (e : Event T) (es : List (Event T)) → pushed (e ∷ es) ≡ pushed (e ∷ []) ++ pushed es
  pushed-cons (pushes e) es = refl
  pushed-cons (starts_timeout now) es = refl
  pushed-cons (waits timeout) es = refl
  pushed-cons (waits_with_timeout timeout now) es = refl
  pushed-cons (wakes now) es = refl

  -- Whatever happens to a queue, the messages that its waits have returned, followed by those that are
  -- still queued, are those from before, followed by the pushed ones: in the order of the pushes, none
  -- lost and none twice, time-outs included.
  pub passed-history :
      (b : Mailbox T) (es : List (Event T)) → passed (history b es) ≡ passed b ++ pushed es
  unfolding history
  passed-history b [] = rw append-nil refl
  passed-history b (e ∷ es) =
      passed-history (happens b e) es ∙ rw (passed-happens b e, append_assoc, pushed-cons e es) refl
