-- ===== src/Tcp/Connection/Ending.antt =====
-- How many rounds the loop of a connection makes.
use cornus.Base.{
  ℕ, zero, suc, ◌+◌, ◌<◌, ◌≤◌, ◌≡◌, refl, ap, Option, none, some, List, [], ◌∷◌, ◌++◌, Bytes,
  Bytes-discrete, length, arith,
}
use cornus.Base.Dict.{get}
use cornus.Tcp.Request.{TcpRequest}
use cornus.Tcp.Frame.{Decoded, incomplete, throws, decoded, get_request, encode_response}
use cornus.Tcp.Socket.{
  Arrival, Received, failed, received, recv, Sending, all_sent, send_failed, blocked, try_send_data,
}
use cornus.Tcp.Socket.Laws.{recv-size}
use cornus.Tcp.Connection.{
  Callback, Callbacks, Connection, Ended, Round, stops, goes_on, shift_buffer, after_send,
  send_response, call_back, on_decoded, continue_if, on_received, round, handle_connection,
  continue_rounds,
}
use cornus.Tcp.Socket.Laws.{arrived}

-- A round that goes on leaves these arrivals.
Leaves : List Arrival → Round → Type 0
Leaves later (stops e c) = Unit
Leaves later (goes_on c) = c.arrivals ≡ later

shift_buffer-Leaves : (req : TcpRequest) (c : Connection) → Leaves c.arrivals (shift_buffer req c)
unfolding Leaves shift_buffer
shift_buffer-Leaves req c = ground arith

after_send-Leaves :
    (req : TcpRequest) (c : Connection) (s : Sending) → Leaves c.arrivals (after_send req c s)
unfolding Leaves after_send
after_send-Leaves req c (all_sent bytes answers) =
    shift_buffer-Leaves req (record c { answers = answers; sent = c.sent ++ bytes })
after_send-Leaves req c (send_failed bytes answers) = tt
after_send-Leaves req c (blocked bytes) = tt

send_response-Leaves :
    (req : TcpRequest) (c : Connection) (m : Option Bytes)
    → Leaves c.arrivals (send_response req c m)
unfolding Leaves send_response
send_response-Leaves req c none = tt
send_response-Leaves req c (some m) = after_send-Leaves req c (try_send_data c.answers m)

call_back-Leaves :
    (req : TcpRequest) (c : Connection) (f : Option Callback)
    → Leaves c.arrivals (call_back req c f)
unfolding Leaves call_back
call_back-Leaves req c none = shift_buffer-Leaves req c
call_back-Leaves req c (some func) =
    send_response-Leaves req (record c { handled = c.handled ++ req ∷ [] })
      (encode_response (func req))

on_decoded-Leaves :
    (callbacks : Callbacks) (c : Connection) (d : Decoded)
    → Leaves c.arrivals (on_decoded callbacks c d)
unfolding Leaves on_decoded
on_decoded-Leaves callbacks c incomplete = refl
on_decoded-Leaves callbacks c throws = tt
on_decoded-Leaves callbacks c (decoded req) =
    call_back-Leaves req c (get Bytes-discrete callbacks req.endpoint)

-- A round that goes on has taken something from what has arrived.
Shrinks : ℕ → Round → Type 0
Shrinks n (stops e c) = Unit
Shrinks n (goes_on c) = arrived c.arrivals < n

continue-Shrinks :
    (bytes : Bytes) (later : List Arrival) (r : Round) (n : ℕ)
    → length bytes + arrived later ≤ n
    → Leaves later r
    → Shrinks n (continue_if bytes r)
unfolding Shrinks Leaves continue_if
continue-Shrinks bytes later (stops e c) n h l = tt
continue-Shrinks [] later (goes_on c) n h l = tt
continue-Shrinks (b ∷ bytes) later (goes_on c) n h l = omega (arith, ap arrived l)

received-Shrinks :
    (callbacks : Callbacks) (c : Connection) (r : Received) (n : ℕ)
    → ((bytes : Bytes) (later : List Arrival)
        → r ≡ received bytes later
        → length bytes + arrived later ≤ n)
    → Shrinks n (on_received callbacks c r)
unfolding Shrinks on_received
received-Shrinks callbacks c (failed later) n h = tt
received-Shrinks callbacks c (received bytes later) n h =
    let c' : Connection = record c { buffer = c.buffer ++ bytes; arrivals = later } in
    continue-Shrinks bytes later (on_decoded callbacks c' (get_request c'.buffer)) n
      (h bytes later refl) (on_decoded-Leaves callbacks c' (get_request c'.buffer))

round-Shrinks :
    (callbacks : Callbacks) (c : Connection) → Shrinks (arrived c.arrivals) (round callbacks c)
unfolding round
round-Shrinks callbacks c =
    received-Shrinks callbacks c (recv _ c.arrivals) (arrived c.arrivals)
      (λ bytes later e. recv-size _ c.arrivals bytes later e)

-- A result of the loop that is not for want of fuel.
abbrev pub IsEnded : Option Ended × Connection → Type 0
IsEnded (none, c) = ⊥
IsEnded (some e, c) = Unit

continue-IsEnded :
    (again : Connection → Option Ended × Connection) (r : Round) (n : ℕ)
    → Shrinks n r
    → ((c : Connection) → arrived c.arrivals < n → IsEnded (again c))
    → IsEnded (continue_rounds again r)
unfolding continue_rounds Shrinks
continue-IsEnded again (stops e c) n s h = tt
continue-IsEnded again (goes_on c) n s h = h c s

-- With more rounds than bytes and errors arrive before the peer closes, the fuel does not run out,
-- whatever the callbacks and `send` answer; the last round may be one that waits for ever in `send`.
pub handle_connection-IsEnded :
    (fuel : ℕ) (callbacks : Callbacks) (c : Connection)
    → arrived c.arrivals < fuel
    → IsEnded (handle_connection fuel callbacks c)
unfolding handle_connection
handle_connection-IsEnded zero callbacks c h = absurd (omega arith)
handle_connection-IsEnded (suc fuel) callbacks c h =
    continue-IsEnded (handle_connection fuel callbacks) (round callbacks c) (arrived c.arrivals)
      (round-Shrinks callbacks c)
      (λ c' l. handle_connection-IsEnded fuel callbacks c' (omega arith))
