-- ===== src/Tcp/Socket/Laws.antt =====
-- What `trySendData` has sent, by its result.
use cornus.Base.{
  ℕ, suc, ◌+◌, ◌<◌, ◌≤◌, ◌≡◌, refl, sym, ap, ◌∙◌, List, [], ◌∷◌, ◌++◌, append_assoc, append-nil,
  Bytes, take, drop, length, take-drop, length-drop, length-take, length-append, take_all, drop_all,
  arith, All,
}
use cornus.Tcp.Socket.{
  Arrival, fails, brings, failed, received, recv, keep_rest, SendAnswer, refuses, takes, Sending,
  all_sent, send_failed, blocked, continue_sending, send_loop, try_send_data,
}

-- `trySendData` has sent the whole message when it returns true, and a beginning of it otherwise.
abbrev pub SentOf : Bytes → Sending → Type 0
SentOf message (all_sent sent answers) = sent ≡ message
SentOf message (send_failed sent answers) = (left : Bytes) × (sent ++ left ≡ message)
SentOf message (blocked sent) = (left : Bytes) × (sent ++ left ≡ message)

continue-SentOf :
    (sent left message : Bytes) (answers : List SendAnswer) (again : Sending)
    → sent ++ left ≡ message
    → SentOf message again
    → SentOf message (continue_sending sent left answers again)
unfolding continue_sending
continue-SentOf sent [] message answers again e h = sym (append-nil sent) ∙ e
continue-SentOf sent (c ∷ left) message answers again e h = h

loop-SentOf :
    (answers : List SendAnswer) (sent left message : Bytes)
    → sent ++ left ≡ message
    → SentOf message (send_loop answers sent left)
unfolding send_loop
loop-SentOf [] sent left message e = (left, e)
loop-SentOf (refuses ∷ answers) sent left message e = (left, e)
loop-SentOf (takes n ∷ answers) sent left message e =
    let e' =
      append_assoc sent (take n left) (drop n left) ∙ ap (◌++◌ sent) (take-drop n left) ∙ e in
    continue-SentOf (sent ++ take n left) (drop n left) message answers _ e'
      (loop-SentOf answers (sent ++ take n left) (drop n left) message e')

-- Whatever `send` answers, `trySendData` has sent exactly the message when it returns true, and a
-- beginning of the message when it returns false or waits for ever.
pub try_send_data-SentOf :
    (answers : List SendAnswer) (message : Bytes) → SentOf message (try_send_data answers message)
unfolding try_send_data
try_send_data-SentOf answers message = loop-SentOf answers [] message message refl

-- The answers that let something through.
abbrev pub Accepts : SendAnswer → Type 0
Accepts refuses = ⊥
Accepts (takes n) = 0 < n

-- All is sent, with at most `k` of the `total` answers.
abbrev pub DoneWithin : ℕ → ℕ → Sending → Type 0
DoneWithin total k (all_sent sent answers) = All Accepts answers × (total ≤ length answers + k)
DoneWithin total k _ = ⊥

continue-DoneWithin :
    (sent left : Bytes) (answers : List SendAnswer) (again : Sending) (total k : ℕ)
    → All Accepts answers
    → total ≤ length answers + k
    → ((0 < length left) → DoneWithin total k again)
    → DoneWithin total k (continue_sending sent left answers again)
unfolding continue_sending
continue-DoneWithin sent [] answers again total k a l h = (a, l)
continue-DoneWithin sent (c ∷ left) answers again total k a l h = h (omega arith)

DoneWithin-le :
    (t t' k k' : ℕ) (s : Sending) → t' ≤ t + 1 → k + 1 ≤ k' → DoneWithin t k s → DoneWithin t' k' s
DoneWithin-le t t' k k' (all_sent sent answers) h l (a, d) = (a, omega arith)
DoneWithin-le t t' k k' (send_failed sent answers) h l d = absurd d
DoneWithin-le t t' k k' (blocked sent) h l d = absurd d

loop-DoneWithin :
    (answers : List SendAnswer) (sent left : Bytes)
    → All Accepts answers
    → length left < length answers
    → DoneWithin (length answers) (length left + 1) (send_loop answers sent left)
unfolding send_loop
loop-DoneWithin [] sent left a h = absurd (omega arith)
loop-DoneWithin (refuses ∷ answers) sent left a h = absurd a.0
loop-DoneWithin (takes k ∷ answers) sent left (a, rest) h =
    continue-DoneWithin (sent ++ take k left) (drop k left) answers _ (suc (length answers))
      (length left + 1) rest (omega arith)
      (λ some_left.
        DoneWithin-le (length answers) (suc (length answers)) (length (drop k left) + 1)
          (length left + 1) _ (omega arith) (omega (arith, length-drop left k, some_left))
          (loop-DoneWithin answers (sent ++ take k left) (drop k left) rest
            (omega (arith, length-drop left k, some_left))))

-- When every call of `send` takes a byte at least, `trySendData` returns true after at most one call
-- more than the message has bytes.
pub try_send_data-DoneWithin :
    (answers : List SendAnswer) (message : Bytes)
    → All Accepts answers
    → length message < length answers
    → DoneWithin (length answers) (length message + 1) (try_send_data answers message)
unfolding try_send_data
try_send_data-DoneWithin answers message a h = loop-DoneWithin answers [] message a h

-- All that `recv` brings fits.
pub recv-fits :
    (room : ℕ) (p : Bytes) (later : List Arrival)
    → length p ≤ room
    → recv room (brings p ∷ later) ≡ received p later
unfolding recv keep_rest
recv-fits room p later h = rw (take_all p room h, drop_all p room h)

pub recv_closed : (room : ℕ) → recv room [] ≡ received [] []
unfolding recv
recv_closed room = refl

-- How many bytes and errors arrive, at least one for each entry.
abbrev pub arrived : List Arrival → ℕ
arrived [] = 0
arrived (fails ∷ later) = suc (arrived later)
arrived (brings b ∷ later) = suc (length b + arrived later)

kept-size :
    (b : Bytes) (later : List Arrival)
    → arrived (keep_rest b later) ≤ suc (length b + arrived later)
unfolding keep_rest
kept-size [] later = omega arith
kept-size (c ∷ b) later = omega arith

-- What `recv` gives and what it leaves are no more than there was.
pub recv-size :
    (room : ℕ) (arrivals : List Arrival) (bytes : Bytes) (later : List Arrival)
    → recv room arrivals ≡ received bytes later
    → length bytes + arrived later ≤ arrived arrivals
unfolding recv
recv-size room [] bytes later e = ground arith
recv-size room (fails ∷ arrivals) bytes later e = absurd (cc)
recv-size room (brings b ∷ arrivals) bytes later e = ground (
  arith,
  kept-size (drop room b) arrivals,
  ap length (take-drop room b),
  length-append (take room b) (drop room b),
)

pub recv-room :
    (room : ℕ) (arrivals : List Arrival) (bytes : Bytes) (later : List Arrival)
    → recv room arrivals ≡ received bytes later
    → length bytes ≤ room
unfolding recv
recv-room room [] bytes later e = ground arith
recv-room room (fails ∷ arrivals) bytes later e = absurd (cc)
recv-room room (brings b ∷ arrivals) bytes later e =
    let same : take room b ≡ bytes = cc in omega (arith, ap length same, length-take b room)

pub recv-failed :
    (room : ℕ) (arrivals later : List Arrival)
    → recv room arrivals ≡ failed later
    → suc (arrived later) ≤ arrived arrivals
unfolding recv
recv-failed room [] later e = absurd (cc)
recv-failed room (fails ∷ arrivals) later e =
    let same : arrivals ≡ later = cc in omega (arith, ap arrived same)
recv-failed room (brings b ∷ arrivals) later e = absurd (cc)

-- A round for each piece, and `fuel` more.
abbrev pub rounds_for : List Bytes → ℕ → ℕ
rounds_for [] fuel = fuel
rounds_for (p ∷ pieces) fuel = suc (rounds_for pieces fuel)

abbrev pub bring : List Bytes → List Arrival → List Arrival
bring [] later = later
bring (p ∷ pieces) later = brings p ∷ bring pieces later

pub rounds_for-add :
    (pieces : List Bytes) (fuel : ℕ) → rounds_for pieces fuel ≡ length pieces + fuel
rounds_for-add [] fuel = omega arith
rounds_for-add (p ∷ pieces) fuel = omega (arith, rounds_for-add pieces fuel)

pub sent_whole :
    (total : ℕ) (m : Bytes) (s : Sending)
    → DoneWithin total (length m + 1) s
    → SentOf m s
    → (rest : List SendAnswer) × (s ≡ all_sent m rest)
      × All Accepts rest
      × (total ≤ length rest + (length m + 1))
sent_whole total m (all_sent sent rest) (a, l) e = (rest, rw e refl, a, l)
sent_whole total m (send_failed sent rest) d e = absurd d
sent_whole total m (blocked sent) d e = absurd d
