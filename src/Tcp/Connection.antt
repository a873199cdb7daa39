-- ===== src/Tcp/Connection.antt =====
-- `handle_connection` of TCPServer. A round of its loop is one `recv`; the fuel counts rounds. What the
-- callbacks do elsewhere is kept as the list of the requests that they were called with.
pub mod Serving
pub mod Chunks
pub mod Conversation
pub mod Ending
pub mod Bounds
pub mod Returning
use cornus.Base.{
  ℕ, zero, suc, ◌+◌, ◌-◌, Bool, true, false, Option, none, some, List, [], ◌∷◌, ◌++◌, Bytes,
  Bytes-discrete, length, take, drop, ltb, if◌then◌else◌,
}
use cornus.Base.Dict.{Dict, empty, get, put}
use cornus.Tcp.Request.{TcpRequest, TcpResponse}
use cornus.Tcp.Frame.{
  max_message_size, encode_response, Decoded, incomplete, throws, decoded, get_request,
}
use cornus.Tcp.Socket.{
  Arrival, Received, failed, received, recv, SendAnswer, Sending, all_sent, send_failed, blocked,
  try_send_data,
}

abbrev pub Callback : Type 0
Callback = TcpRequest → TcpResponse

abbrev pub Callbacks : Type 0
Callbacks = Dict Bytes Callback

unfoldable pub register_callback : Callbacks → Bytes → Callback → Callbacks
register_callback callbacks endpoint callback = put Bytes-discrete callbacks endpoint callback

pub record Connection : Type 0 where
  -- The first `bufferPointer` bytes of `msg`.
  pub buffer : Bytes
  pub arrivals : List Arrival
  pub answers : List SendAnswer
  pub sent : Bytes
  pub handled : List TcpRequest

-- How the function ends: it returns 0 or -1, an exception leaves it, it waits for ever in `send`, or its
-- behaviour is undefined.
pub data Ended : Type 0 where
  returns_zero returns_error thrown stuck undefined : Ended

-- What one round decides on.
pub data Round : Type 0 where
  stops : Ended → Connection → Round
  goes_on : Connection → Round

-- "get pointers and buffer ready for next message". Where the message is longer than what is in use of
-- the buffer, the difference wraps around to nearly 2^64, and `memcpy` leaves the buffer. Where the two
-- ranges overlap, the copy is taken to be made byte by byte from the front.
shift_buffer : TcpRequest → Connection → Round
shift_buffer req c =
    let message_size = length req.endpoint + length req.request + 2 in
    if ltb (length c.buffer) message_size
    then stops undefined c
    else goes_on (record c { buffer = drop message_size c.buffer })

after_send : TcpRequest → Connection → Sending → Round
unfolding shift_buffer
after_send req c (all_sent bytes answers) =
    shift_buffer req (record c { answers = answers; sent = c.sent ++ bytes })
after_send req c (send_failed bytes answers) =
    stops returns_error (record c { answers = answers; sent = c.sent ++ bytes })
after_send req c (blocked bytes) = stops stuck (record c { answers = []; sent = c.sent ++ bytes })

send_response : TcpRequest → Connection → Option Bytes → Round
unfolding after_send
send_response req c none = stops returns_error c
send_response req c (some message) = after_send req c (try_send_data c.answers message)

call_back : TcpRequest → Connection → Option Callback → Round
unfolding send_response shift_buffer encode_response
call_back req c none = shift_buffer req c
call_back req c (some func) =
    send_response req (record c { handled = c.handled ++ req ∷ [] }) (encode_response (func req))

pub on_decoded : Callbacks → Connection → Decoded → Round
unfolding call_back
on_decoded callbacks c incomplete = goes_on c
on_decoded callbacks c throws = stops thrown c
on_decoded callbacks c (decoded req) = call_back req c (get Bytes-discrete callbacks req.endpoint)

-- `while (bytes_received > 0)`, and the close behind the loop.
continue_if : Bytes → Round → Round
continue_if bytes (stops e c) = stops e c
continue_if [] (goes_on c) = stops returns_zero c
continue_if (b ∷ bytes) (goes_on c) = goes_on c

on_received : Callbacks → Connection → Received → Round
unfolding on_decoded continue_if
on_received callbacks c (failed later) = stops returns_error (record c { arrivals = later })
on_received callbacks c (received bytes later) =
    let c' : Connection = record c { buffer = c.buffer ++ bytes; arrivals = later } in
    continue_if bytes (on_decoded callbacks c' (get_request c'.buffer))

unfoldable pub round : Callbacks → Connection → Round
unfolding on_received
round callbacks c = on_received callbacks c (recv (max_message_size - length c.buffer) c.arrivals)

continue_rounds : (Connection → Option Ended × Connection) → Round → Option Ended × Connection
continue_rounds again (stops e c) = (some e, c)
continue_rounds again (goes_on c) = again c

-- `none` says that the fuel ran out.
unfoldable pub handle_connection : ℕ → Callbacks → Connection → Option Ended × Connection
unfolding round continue_rounds
handle_connection zero callbacks c = (none, c)
handle_connection (suc fuel) callbacks c =
    continue_rounds (handle_connection fuel callbacks) (round callbacks c)

-- A connection that has been accepted.
abbrev pub new_connection : List Arrival → List SendAnswer → Connection
new_connection arrivals answers = record {
  buffer = [];
  arrivals = arrivals;
  answers = answers;
  sent = [];
  handled = [];
}
