-- ===== src/Tcp/Connection/Returning.antt =====
-- A connection whose `send` takes bytes comes to an end.
use cornus.Base.{
  ℕ, zero, suc, ◌+◌, ◌*◌, ◌-◌, ◌≤◌, ◌<◌, ◌≡◌, ◌≢◌, ◌⊎◌, refl, ap, Option, none, some, [], ◌∷◌, ◌++◌,
  Bytes, Bytes-discrete, All, Bool-cases, inl, inr, leb, ltb, length, length-append, arith,
  some-injective,
}
use cornus.Base.Dict.{get}
use cornus.Tcp.Request.{message_end, TcpRequest, TcpResponse}
use cornus.Tcp.Frame.{
  max_message_size, encode_response, Decoded, incomplete, throws, decoded, get_request,
}
use cornus.Tcp.Socket.{Received, failed, received, recv, try_send_data}
use cornus.Tcp.Socket.Laws.{
  arrived, Accepts, sent_whole, try_send_data-DoneWithin, try_send_data-SentOf,
}
use cornus.Tcp.Connection.{
  Callback, Callbacks, Connection, Ended, returns_zero, returns_error, thrown, stuck, undefined,
  Round, stops, goes_on, shift_buffer, after_send, send_response, call_back, on_decoded,
  continue_if, on_received, round, continue_rounds, handle_connection,
}
use cornus.Tcp.Connection.Bounds.{InBuffer, handle_connection-InBuffer}
use cornus.Tcp.Connection.Ending.{IsEnded, handle_connection-IsEnded}

-- A round that does not wait for ever, and that leaves `n` calls of `send`.
Spares : ℕ → Round → Type 0
Spares n (stops e c) = e ≢ stuck
Spares n (goes_on c) = All Accepts c.answers × (n ≤ length c.answers)

shift_buffer-Spares :
    (n : ℕ) (req : TcpRequest) (c : Connection)
    → All Accepts c.answers
    → n ≤ length c.answers
    → Spares n (shift_buffer req c)
unfolding Spares shift_buffer
shift_buffer-Spares n req c a h =
    elim (Bool-cases (ltb (length c.buffer) (length req.endpoint + length req.request + 2))) [
      | inl e ↦ rw (e, shift_buffer) (λ q. cc)
      | inr e ↦ rw (e, shift_buffer) (a, h)
    ]

encoded_size :
    (r : TcpResponse) (m : Bytes) → encode_response r ≡ some m → length m < max_message_size
unfolding encode_response
encoded_size r m e = elim (Bool-cases (leb max_message_size (length r.response + 1))) [
  | inl q ↦ cc
  | inr q ↦
      let same = ap length (some-injective _ _ (rw q at e)) in
      let small : length r.response + 1 < max_message_size = ground (arith, q) in
      omega (arith, same, small, length-append r.response (message_end ∷ []))
]

send_response-Spares :
    (n : ℕ) (req : TcpRequest) (c : Connection) (m : Option Bytes)
    → All Accepts c.answers
    → n + max_message_size ≤ length c.answers
    → ((text : Bytes) → m ≡ some text → length text < max_message_size)
    → Spares n (send_response req c m)
unfolding Spares send_response after_send
send_response-Spares n req c none a h l = λ q. cc
send_response-Spares n req c (some m) a h l =
    let small = l m refl in
    let (rest, all, a', left) =
      sent_whole (length c.answers) m (try_send_data c.answers m)
        (try_send_data-DoneWithin c.answers m a (omega arith)) (try_send_data-SentOf c.answers m) in
    rw all
      (shift_buffer-Spares n req (record c { answers = rest; sent = c.sent ++ m }) a' (omega arith))

call_back-Spares :
    (n : ℕ) (req : TcpRequest) (c : Connection) (f : Option Callback)
    → All Accepts c.answers
    → n + max_message_size ≤ length c.answers
    → Spares n (call_back req c f)
unfolding call_back
call_back-Spares n req c none a h = shift_buffer-Spares n req c a (omega arith)
call_back-Spares n req c (some func) a h =
    send_response-Spares n req (record c { handled = c.handled ++ req ∷ [] })
      (encode_response (func req)) a h (encoded_size (func req))

on_decoded-Spares :
    (n : ℕ) (callbacks : Callbacks) (c : Connection) (d : Decoded)
    → All Accepts c.answers
    → n + max_message_size ≤ length c.answers
    → Spares n (on_decoded callbacks c d)
unfolding Spares on_decoded
on_decoded-Spares n callbacks c incomplete a h = (a, omega arith)
on_decoded-Spares n callbacks c throws a h = λ q. cc
on_decoded-Spares n callbacks c (decoded req) a h =
    call_back-Spares n req c (get Bytes-discrete callbacks req.endpoint) a h

continue-Spares : (n : ℕ) (bytes : Bytes) (r : Round) → Spares n r → Spares n (continue_if bytes r)
unfolding Spares continue_if
continue-Spares n bytes (stops e c) h = h
continue-Spares n [] (goes_on c) h = λ q. cc
continue-Spares n (b ∷ bytes) (goes_on c) h = h

received-Spares :
    (n : ℕ) (callbacks : Callbacks) (c : Connection) (r : Received)
    → All Accepts c.answers
    → n + max_message_size ≤ length c.answers
    → Spares n (on_received callbacks c r)
unfolding Spares on_received
received-Spares n callbacks c (failed later) a h = λ q. cc
received-Spares n callbacks c (received bytes later) a h =
    let c' : Connection = record c { buffer = c.buffer ++ bytes; arrivals = later } in
    continue-Spares n bytes (on_decoded callbacks c' (get_request c'.buffer))
      (on_decoded-Spares n callbacks c' (get_request c'.buffer) a h)

-- The loop does not wait for ever in `send`.
abbrev IsFree : Option Ended → Type 0
IsFree o = o ≢ some stuck

rounds-IsFree :
    (n : ℕ) (again : Connection → Option Ended × Connection) (r : Round)
    → Spares n r
    → ((c : Connection) → All Accepts c.answers → n ≤ length c.answers → IsFree (again c).0)
    → IsFree (continue_rounds again r).0
unfolding continue_rounds Spares
rounds-IsFree n again (stops e c) h g = λ q. h (some-injective _ _ q)
rounds-IsFree n again (goes_on c) (a, h) g = g c a h

handle_connection-IsFree :
    (fuel : ℕ) (callbacks : Callbacks) (c : Connection)
    → All Accepts c.answers
    → fuel * max_message_size ≤ length c.answers
    → IsFree (handle_connection fuel callbacks c).0
unfolding handle_connection round
handle_connection-IsFree zero callbacks c a h = λ q. cc
handle_connection-IsFree (suc fuel) callbacks c a h =
    let n = fuel * max_message_size in
    rounds-IsFree n (handle_connection fuel callbacks) (round callbacks c)
      (received-Spares n callbacks c (recv (max_message_size - length c.buffer) c.arrivals) a
        (omega arith))
      (λ c' a' h'. handle_connection-IsFree fuel callbacks c' a' h')

-- The ways to end by the function's own doing.
abbrev pub Returns : Option Ended → Type 0
Returns o = (o ≡ some returns_zero) ⊎ ((o ≡ some returns_error) ⊎ (o ≡ some thrown))

by_its_own :
    (o : Option Ended × Connection) → IsEnded o → IsFree o.0 → o.0 ≢ some undefined → Returns o.0
by_its_own (none, c) e f d = absurd e
by_its_own (some returns_zero, c) e f d = inl refl
by_its_own (some returns_error, c) e f d = inr (inl refl)
by_its_own (some thrown, c) e f d = inr (inr refl)
by_its_own (some stuck, c) e f d = absurd (f refl)
by_its_own (some undefined, c) e f d = absurd (d refl)

-- From a connection whose buffer holds at most 512 bytes, on which a finite number of bytes and errors
-- arrives before the peer closes, and with more rounds than these: if `send` takes a byte at least at
-- each call, and is called up to 512 times for each round, then the function returns 0 or -1, or an
-- exception leaves it, whatever arrives and whatever the callbacks answer. It never waits for ever.
pub handle_connection-Returns :
    (fuel : ℕ) (callbacks : Callbacks) (c : Connection)
    → InBuffer c
    → All Accepts c.answers
    → arrived c.arrivals < fuel
    → fuel * max_message_size ≤ length c.answers
    → Returns (handle_connection fuel callbacks c).0
handle_connection-Returns fuel callbacks c b a f h =
    by_its_own (handle_connection fuel callbacks c) (handle_connection-IsEnded fuel callbacks c f)
      (handle_connection-IsFree fuel callbacks c a h)
      (handle_connection-InBuffer fuel callbacks c b).1
