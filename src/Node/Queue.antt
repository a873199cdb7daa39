-- ===== src/Node/Queue.antt =====
-- Cornus/include/messaging/messageQueue.hpp, with the one thread that reads a queue. A wait on an
-- empty queue gives the mutex up, and the reader then looks at the queue whenever the condition
-- variable lets it: after a push, at the deadline, or without a reason. Times are clock readings.
pub mod Order
pub mod Deadline
use cornus.Base.{
  ℕ, ◌+◌, Bool, true, false, Option, none, some, List, [], ◌∷◌, ◌++◌, leb, if◌then◌else◌,
}

pub record MessageQueue {ℓ} (T : Type ℓ) : Type ℓ where
  pub q : List T
  pub timeout_start : ℕ

unfoldable pub push {ℓ} : {T : Type ℓ} → MessageQueue T → T → MessageQueue T
push m element = record m { q = m.q ++ element ∷ [] }

unfoldable pub set_timeout_start {ℓ} : {T : Type ℓ} → MessageQueue T → ℕ → MessageQueue T
set_timeout_start m now = record m { timeout_start = now }

-- What the reading thread does: nothing with this queue, or wait for a message until a deadline.
pub data Reader : Type 0 where
  idle : Reader
  blocked : ℕ → Reader

-- A queue, its reader, and what the waits have returned so far.
pub record Mailbox {ℓ} (T : Type ℓ) : Type ℓ where
  pub messages : MessageQueue T
  pub reader : Reader
  pub returned : List (Option T)

-- `return popFront();`, or what the reader does with an empty queue.
take_front {ℓ} : {T : Type ℓ} → Mailbox T → List T → Mailbox T → Mailbox T
take_front b [] otherwise = otherwise
take_front b (e ∷ rest) otherwise = record {
  messages = record (b.messages) { q = rest };
  reader = idle;
  returned = b.returned ++ some e ∷ [];
}

-- `waitForNextMessage`, up to its return or to `wait_until`.
unfoldable pub wait_for_next_message {ℓ} : {T : Type ℓ} → Mailbox T → ℕ → Mailbox T
unfolding take_front
wait_for_next_message b timeout =
    take_front b b.messages.q (record b { reader = blocked (b.messages.timeout_start + timeout) })

-- `waitForNextMessageWithTimeout`
unfoldable pub wait_for_next_message_with_timeout {ℓ} : {T : Type ℓ} → Mailbox T → ℕ → ℕ → Mailbox T
unfolding wait_for_next_message set_timeout_start
wait_for_next_message_with_timeout b timeout now =
    wait_for_next_message (record b { messages = set_timeout_start b.messages now }) timeout

-- The waiting reader has the mutex again at time `now`: a message, `std::nullopt` at the deadline, or
-- it goes on waiting.
wake {ℓ} : {T : Type ℓ} → Mailbox T → Reader → ℕ → Mailbox T
unfolding take_front
wake b idle now = b
wake b (blocked deadline) now =
    take_front b b.messages.q (
      if leb deadline now
      then record b { reader = idle; returned = b.returned ++ none ∷ [] }
      else b)

-- Who has the mutex, and what it does.
pub data Event {ℓ} (T : Type ℓ) : Type ℓ where
  pushes : T → Event T
  starts_timeout : ℕ → Event T
  waits : ℕ → Event T
  waits_with_timeout : ℕ → ℕ → Event T
  wakes : ℕ → Event T

-- A call of the reader, which it makes only when it is not waiting.
reads {ℓ} : {T : Type ℓ} → Mailbox T → Reader → Mailbox T → Mailbox T
reads b idle called = called
reads b (blocked deadline) called = b

unfoldable pub happens {ℓ} : {T : Type ℓ} → Mailbox T → Event T → Mailbox T
unfolding push set_timeout_start wait_for_next_message wait_for_next_message_with_timeout wake reads
happens b (pushes e) = record b { messages = push b.messages e }
happens b (starts_timeout now) =
    reads b b.reader (record b { messages = set_timeout_start b.messages now })
happens b (waits timeout) = reads b b.reader (wait_for_next_message b timeout)
happens b (waits_with_timeout timeout now) =
    reads b b.reader (wait_for_next_message_with_timeout b timeout now)
happens b (wakes now) = wake b b.reader now

unfoldable pub history {ℓ} : {T : Type ℓ} → Mailbox T → List (Event T) → Mailbox T
unfolding happens
history b [] = b
history b (e ∷ es) = history (happens b e) es
