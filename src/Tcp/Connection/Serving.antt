-- ===== src/Tcp/Connection/Serving.antt =====
-- What a server does with a request that has arrived.
use cornus.Base.{
  ◌+◌, ◌≤◌, ◌<◌, ◌≡◌, refl, Option, none, some, List, [], ◌∷◌, ◌++◌, append-nil, Bytes,
  Bytes-discrete, All, length, length-append, drop_all, arith,
}
use cornus.Base.Dict.{get}
use cornus.Tcp.Request.{header_delim, message_end, TcpRequest, parse_request}
use cornus.Tcp.Frame.{max_message_size, decoded}
use cornus.Tcp.Frame.RoundTrip.{message, encode_response-fits}
use cornus.Tcp.Socket.{SendAnswer, try_send_data}
use cornus.Tcp.Socket.Laws.{sent_whole, Accepts, try_send_data-DoneWithin, try_send_data-SentOf}
use cornus.Tcp.Connection.{
  Callback, Callbacks, Connection, goes_on, shift_buffer, after_send, send_response, call_back,
  on_decoded,
}

-- What a request makes the server send, and which calls it leads to, by the callback of its endpoint.
abbrev reply_by : Bytes → Bytes → Option Callback → Bytes
reply_by endpoint request none = []
reply_by endpoint request (some func) =
    (func (parse_request endpoint request)).response ++ (message_end ∷ [])

abbrev calls_by : Bytes → Bytes → Option Callback → List TcpRequest
calls_by endpoint request none = []
calls_by endpoint request (some func) = parse_request endpoint request ∷ []

abbrev pub reply : Callbacks → Bytes → Bytes → Bytes
reply callbacks endpoint request = reply_by endpoint request (get Bytes-discrete callbacks endpoint)

abbrev pub calls : Callbacks → Bytes → Bytes → List TcpRequest
calls callbacks endpoint request = calls_by endpoint request (get Bytes-discrete callbacks endpoint)

pub size-message :
    (endpoint request : Bytes)
    → length (message endpoint request) ≡ length endpoint + length request + 2
size-message endpoint request = omega (
  arith,
  length-append endpoint (header_delim ∷ (request ++ (message_end ∷ []))),
  length-append request (message_end ∷ []),
)

-- The connection after a request that was answered with `text`.
abbrev pub answered : Connection → List SendAnswer → Bytes → List TcpRequest → Connection
answered c answers text called = record c {
  buffer = [];
  answers = answers;
  sent = c.sent ++ text;
  handled = c.handled ++ called;
}

module _ (callbacks : Callbacks) (endpoint request : Bytes) (c : Connection) where
  -- The request is in the buffer, and there are answers of `send` for its reply.
  unfoldable pub IsAnswered : Bytes → List TcpRequest → Type 0
  IsAnswered text called =
      (answers : List SendAnswer) × (on_decoded callbacks c
          (decoded (parse_request endpoint request))
        ≡ goes_on (answered c answers text called))
      × All Accepts answers
      × (length c.answers ≤ length answers + (length text + 1))

  shifted :
      (c' : Connection)
      → c'.buffer ≡ message endpoint request
      → shift_buffer (parse_request endpoint request) c' ≡ goes_on (record c' { buffer = [] })
  unfolding shift_buffer parse_request
  shifted c' e =
      let all =
        drop_all (message endpoint request) (length endpoint + length request + 2)
          (omega (arith, size-message endpoint request)) in
      rw (e, all) (ground (arith, size-message endpoint request))

  parsed :
      {o : Option Callback}
      → get Bytes-discrete callbacks endpoint ≡ o
      → get Bytes-discrete callbacks (parse_request endpoint request).endpoint ≡ o
  unfolding parse_request
  parsed g = g

  IsAnswered-none :
      c.buffer ≡ message endpoint request
      → All Accepts c.answers
      → get Bytes-discrete callbacks endpoint ≡ none
      → IsAnswered [] []
  unfolding IsAnswered on_decoded call_back
  IsAnswered-none e a g =
      (c.answers, rw (parsed g, shifted c e, append-nil, append-nil) refl, a, omega arith)

  IsAnswered-some :
      (func : Callback)
      → c.buffer ≡ message endpoint request
      → All Accepts c.answers
      → length ((func (parse_request endpoint request)).response ++ (message_end ∷ []))
        < max_message_size
      → length ((func (parse_request endpoint request)).response ++ (message_end ∷ []))
        < length c.answers
      → get Bytes-discrete callbacks endpoint ≡ some func
      → IsAnswered
          ((func (parse_request endpoint request)).response ++ (message_end ∷ []))
          (parse_request endpoint request ∷ [])
  unfolding IsAnswered on_decoded call_back send_response after_send
  IsAnswered-some func e a fits budget g =
      let req = parse_request endpoint request in
      let m = (func req).response ++ (message_end ∷ []) in
      let (rest, all, a', l) =
        sent_whole (length c.answers) m (try_send_data c.answers m)
          (try_send_data-DoneWithin c.answers m a budget) (try_send_data-SentOf c.answers m) in
      let sent : Connection = record c {
        answers = rest;
        sent = c.sent ++ m;
        handled = c.handled ++ req ∷ [];
      } in
      (rest, rw (parsed g, encode_response-fits (func req) fits, all, shifted sent e) refl, a', l)

  pub served :
      (o : Option Callback)
      → get Bytes-discrete callbacks endpoint ≡ o
      → c.buffer ≡ message endpoint request
      → All Accepts c.answers
      → length (reply_by endpoint request o) < max_message_size
      → length (reply_by endpoint request o) < length c.answers
      → IsAnswered (reply_by endpoint request o) (calls_by endpoint request o)
  served none g e a fits budget = IsAnswered-none e a g
  served (some func) g e a fits budget = IsAnswered-some func e a fits budget g
