-- ===== src/Tcp/Rpc.antt =====
-- A client and a server at the two ends of one connection.
use mathlib.Core.List.{flatten}
use cornus.Base.{
  ℕ, ◌+◌, ◌-◌, ◌≤◌, ◌<◌, ◌≡◌, ◌≢◌, refl, ap, ◌∙◌, sym, true, some, List, [], ◌∷◌, ◌++◌, append-nil,
  Bytes, Bytes-discrete, All, length, arith,
}
use cornus.Base.Dict.{get}
use cornus.Tcp.Request.{message_end, TcpRequest, parse_request}
use cornus.Tcp.Frame.{max_message_size}
use cornus.Tcp.Frame.RoundTrip.{NoEnd, IsPart, message}
use cornus.Tcp.Socket.{SendAnswer}
use cornus.Tcp.Socket.Laws.{Accepts, bring, rounds_for, rounds_for-add}
use cornus.Tcp.Connection.{
  Callback, Callbacks, Connection, returns_zero, new_connection, handle_connection,
}
use cornus.Tcp.Connection.Serving.{size-message, reply, calls}
use cornus.Tcp.Connection.Conversation.{
  Exchange, IsSent, replies, all_calls, handle_connection-converse,
}
use cornus.Tcp.Client.{TcpClient, gives, Socket, send_request}
use cornus.Tcp.Client.Call.{send_request-receives}

-- The response that the callback gives to what the server reads.
abbrev pub response_text : Callback → TcpRequest → Bytes
response_text func req = (func (parse_request req.endpoint req.request)).response

-- The request and the response fit the buffers and hold no delimiter that would cut them short.
pub record IsCall (func : Callback) (req : TcpRequest) : Type 0 where
  pub endpoint_part : IsPart req.endpoint
  pub request_part : IsPart req.request
  pub size : length req.endpoint + length req.request + 2 < max_message_size
  pub response_part : NoEnd (response_text func req)
  pub response_size : length (response_text func req ++ (message_end ∷ [])) < max_message_size

-- How the network cuts a text into pieces, none of which is empty.
pub record Cut (text : Bytes) : Type 0 where
  pub pieces : List Bytes
  pub some_bytes : All (λ p. p ≢ []) pieces
  pub whole : flatten pieces ≡ text

append_none : (text : Bytes) → length (text ++ []) ≡ length text
append_none text = ap length (append-nil text)

module _ (callbacks : Callbacks) (func : Callback) (req : TcpRequest)
    (known : get Bytes-discrete callbacks req.endpoint ≡ some func) where
  -- The server returns 0 with nothing left to read, having sent `text` and called the callbacks so.
  Closed : ℕ → Connection → List SendAnswer → Bytes → List TcpRequest → Type 0
  Closed fuel c left text handled = handle_connection fuel callbacks c ≡ (
    some returns_zero,
    record { buffer = []; arrivals = []; answers = left; sent = text; handled = handled },
  )

  replied : reply callbacks req.endpoint req.request ≡ response_text func req ++ (message_end ∷ [])
  replied = rw known refl

  called : calls callbacks req.endpoint req.request ≡ parse_request req.endpoint req.request ∷ []
  called = rw known refl

  exchange : Cut (message req.endpoint req.request) → Exchange
  exchange there = record { endpoint = req.endpoint; request = req.request; pieces = there.pieces }

  exchange-IsSent :
      (there : Cut (message req.endpoint req.request))
      → IsCall func req
      → IsSent callbacks (exchange there)
  unfolding exchange
  exchange-IsSent there call = record {
    endpoint_part = call.endpoint_part;
    request_part = call.request_part;
    some_bytes = there.some_bytes;
    whole = there.whole;
    size = omega (arith, size-message req.endpoint req.request, call.size);
    reply_size = rw known call.response_size;
  }

  -- What the server comes to: the connection once it has served the exchange.
  server_end :
      (fuel : ℕ) (c : Connection) (left : List SendAnswer)
      (there : Cut (message req.endpoint req.request))
      → Closed fuel c left
          (replies callbacks (exchange there ∷ []))
          (all_calls callbacks (exchange there ∷ []))
      → Closed fuel c left
          (response_text func req ++ (message_end ∷ []))
          (parse_request req.endpoint req.request ∷ [])
  unfolding Closed exchange
  server_end fuel c left there e = e ∙ rw (append-nil, append-nil, replied, called) refl

-- A connected client sends a request to an endpoint that the server knows; the endpoint, the request
-- and the response hold no delimiter and fit the buffers, and `send` takes a byte at least at each call
-- and is called often enough at both ends. Then, however the network cuts the request and the response
-- into pieces, the server calls the callback once, with the request as it reads it, sends the response
-- and returns 0 when the client closes, and the client returns exactly the callback's response.
pub send_request-handle_connection :
    (callbacks : Callbacks) (func : Callback) (req : TcpRequest) (client : TcpClient)
    (client_answers server_answers : List SendAnswer)
    → (there : Cut (message req.endpoint req.request))
    → (back : Cut (response_text func req ++ (message_end ∷ []))) → (fuel : ℕ)
    → get Bytes-discrete callbacks req.endpoint ≡ some func
    → IsCall func req
    → client.valid ≡ true
    → All Accepts client_answers
    → All Accepts server_answers
    → length (message req.endpoint req.request) < length client_answers
    → length (response_text func req ++ (message_end ∷ [])) < length server_answers
    → length there.pieces < fuel
    → length back.pieces ≤ fuel
    → (server_left client_left : List SendAnswer) × (handle_connection fuel callbacks
          (new_connection (bring there.pieces []) server_answers)
        ≡ (
          some returns_zero,
          record {
            buffer = [];
            arrivals = [];
            answers = server_left;
            sent = response_text func req ++ (message_end ∷ []);
            handled = parse_request req.endpoint req.request ∷ [];
          },
        ))
      × (send_request fuel client
            (record { arrivals = bring back.pieces []; answers = client_answers; sent = [] })
            req
          ≡ (
            gives (some (record { response = response_text func req })),
            record {
              arrivals = [];
              answers = client_left;
              sent = message req.endpoint req.request;
            },
          ))
unfolding exchange Closed
send_request-handle_connection callbacks func req client ca sa there back fuel known call up a a' h
      h' f f' =
    let k : Socket = record { arrivals = bring back.pieces []; answers = ca; sent = [] } in
    let (server_left, served) =
      handle_connection-converse callbacks (exchange callbacks func req known there ∷ []) sa fuel
        (exchange-IsSent callbacks func req known there call, tt) a'
        (omega (
          arith,
          ap length (replied callbacks func req known),
          append_none (reply callbacks req.endpoint req.request),
          h',
        ))
        (omega (arith, f)) in
    let (client_left, got) =
      send_request-receives client k req up (response_text func req) back.pieces []
        (fuel - length back.pieces) call.size a h refl back.some_bytes back.whole call.response_part
        (omega (arith, call.response_size)) in
    let enough : rounds_for back.pieces (fuel - length back.pieces) ≡ fuel =
      omega (arith, rounds_for-add back.pieces (fuel - length back.pieces)) in
    (
      server_left,
      client_left,
      server_end callbacks func req known fuel (new_connection (bring there.pieces []) sa)
          server_left there served,
      sym (ap (λ n. send_request n client k req) enough) ∙ got,
    )
