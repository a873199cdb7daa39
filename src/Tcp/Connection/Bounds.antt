-- ===== src/Tcp/Connection/Bounds.antt =====
-- How full the buffer of a connection is.
use cornus.Base.{
  ℕ, zero, suc, ◌+◌, ◌-◌, ◌≤◌, ◌≡◌, ◌≢◌, refl, Option, none, some, List, [], ◌∷◌, ◌++◌, Bytes,
  Bytes-discrete, length, length-append, length-drop, arith,
}
use cornus.Base.Dict.{get}
use cornus.Tcp.Request.{TcpRequest}
use cornus.Tcp.Frame.{
  max_message_size, Decoded, incomplete, throws, decoded, get_request, encode_response,
}
use cornus.Tcp.Frame.Size.{Fits, get_request-Fits}
use cornus.Tcp.Socket.{
  Arrival, Received, failed, received, recv, Sending, all_sent, send_failed, blocked, try_send_data,
}
use cornus.Tcp.Socket.Laws.{recv-room}
use cornus.Tcp.Connection.{
  Callback, Callbacks, Connection, Ended, Round, stops, goes_on, undefined, shift_buffer,
  after_send, send_response, call_back, on_decoded, continue_if, on_received, round,
  continue_rounds, handle_connection,
}

-- What is in use of the buffer is no more than what the source reserves.
abbrev pub InBuffer : Connection → Type 0
InBuffer c = length c.buffer ≤ max_message_size

-- The behaviour is defined.
abbrev pub IsDefined : Option Ended → Type 0
IsDefined o = o ≢ some undefined

RoundInBuffer : Round → Type 0
RoundInBuffer (stops e c) = InBuffer c × IsDefined (some e)
RoundInBuffer (goes_on c) = InBuffer c

-- What is in use of the buffer holds the request.
abbrev Holds : TcpRequest → Connection → Type 0
Holds req c = length req.endpoint + length req.request + 2 ≤ length c.buffer

shift-InBuffer :
    (req : TcpRequest) (c : Connection)
    → InBuffer c
    → Holds req c
    → RoundInBuffer (shift_buffer req c)
unfolding RoundInBuffer shift_buffer
shift-InBuffer req c h f =
    ground (arith, length-drop c.buffer (length req.endpoint + length req.request + 2))

after-InBuffer :
    (req : TcpRequest) (c : Connection) (s : Sending)
    → InBuffer c
    → Holds req c
    → RoundInBuffer (after_send req c s)
unfolding RoundInBuffer after_send
after-InBuffer req c (all_sent bytes answers) h f =
    shift-InBuffer req (record c { answers = answers; sent = c.sent ++ bytes }) h f
after-InBuffer req c (send_failed bytes answers) h f = (h, λ e. cc)
after-InBuffer req c (blocked bytes) h f = (h, λ e. cc)

response-InBuffer :
    (req : TcpRequest) (c : Connection) (m : Option Bytes)
    → InBuffer c
    → Holds req c
    → RoundInBuffer (send_response req c m)
unfolding RoundInBuffer send_response
response-InBuffer req c none h f = (h, λ e. cc)
response-InBuffer req c (some m) h f = after-InBuffer req c (try_send_data c.answers m) h f

call-InBuffer :
    (req : TcpRequest) (c : Connection) (func : Option Callback)
    → InBuffer c
    → Holds req c
    → RoundInBuffer (call_back req c func)
unfolding call_back
call-InBuffer req c none h f = shift-InBuffer req c h f
call-InBuffer req c (some func) h f =
    response-InBuffer req (record c { handled = c.handled ++ req ∷ [] })
      (encode_response (func req)) h f

decoded-InBuffer :
    (callbacks : Callbacks) (c : Connection) (d : Decoded)
    → InBuffer c
    → Fits c.buffer d
    → RoundInBuffer (on_decoded callbacks c d)
unfolding RoundInBuffer on_decoded
decoded-InBuffer callbacks c incomplete h f = h
decoded-InBuffer callbacks c throws h f = (h, λ e. cc)
decoded-InBuffer callbacks c (decoded req) h f =
    call-InBuffer req c (get Bytes-discrete callbacks req.endpoint) h f

continue-InBuffer :
    (bytes : Bytes) (r : Round) → RoundInBuffer r → RoundInBuffer (continue_if bytes r)
unfolding RoundInBuffer continue_if
continue-InBuffer bytes (stops e c) h = h
continue-InBuffer [] (goes_on c) h = (h, λ e. cc)
continue-InBuffer (b ∷ bytes) (goes_on c) h = h

received-InBuffer :
    (callbacks : Callbacks) (c : Connection) (r : Received)
    → InBuffer c
    → ((bytes : Bytes) (later : List Arrival)
        → r ≡ received bytes later
        → length bytes ≤ max_message_size - length c.buffer)
    → RoundInBuffer (on_received callbacks c r)
unfolding RoundInBuffer on_received
received-InBuffer callbacks c (failed later) h room = (h, λ e. cc)
received-InBuffer callbacks c (received bytes later) h room =
    let c' : Connection = record c { buffer = c.buffer ++ bytes; arrivals = later } in
    continue-InBuffer bytes (on_decoded callbacks c' (get_request c'.buffer)) (
      decoded-InBuffer callbacks c' (get_request c'.buffer)
        (omega (arith, h, length-append c.buffer bytes, room bytes later refl))
        (get_request-Fits c'.buffer))

round-InBuffer :
    (callbacks : Callbacks) (c : Connection) → InBuffer c → RoundInBuffer (round callbacks c)
unfolding round
round-InBuffer callbacks c h =
    let room = max_message_size - length c.buffer in
    received-InBuffer callbacks c (recv room c.arrivals) h
      (λ bytes later e. recv-room room c.arrivals bytes later e)

-- How a run of the loop leaves the connection.
abbrev pub StaysWithin : Option Ended × Connection → Type 0
StaysWithin (o, c) = InBuffer c × IsDefined o

rounds-InBuffer :
    (again : Connection → Option Ended × Connection) (r : Round)
    → RoundInBuffer r
    → ((c : Connection) → InBuffer c → StaysWithin (again c))
    → StaysWithin (continue_rounds again r)
unfolding continue_rounds RoundInBuffer
rounds-InBuffer again (stops e c) h g = h
rounds-InBuffer again (goes_on c) h g = g c h

pub handle_connection-InBuffer :
    (fuel : ℕ) (callbacks : Callbacks) (c : Connection)
    → InBuffer c
    → StaysWithin (handle_connection fuel callbacks c)
unfolding handle_connection
handle_connection-InBuffer zero callbacks c h = (h, λ e. cc)
handle_connection-InBuffer (suc fuel) callbacks c h =
    rounds-InBuffer (handle_connection fuel callbacks) (round callbacks c)
      (round-InBuffer callbacks c h) (λ c' h'. handle_connection-InBuffer fuel callbacks c' h')
