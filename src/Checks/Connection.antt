-- ===== src/Checks/Connection.antt =====
-- Connections between a client and the server of Tcp/Hello.
use mathlib.Core.List.{flatten}
use cornus.Base.{
  ℕ, zero, suc, ◌≡◌, ◌≢◌, refl, ap, length-append, true, some, List, [], ◌∷◌, ◌++◌, Bytes,
  Bytes-discrete, All, codes, length, arith, ℕ_discrete,
}
use cornus.Base.Dict.{get, put, lookup, without}
use cornus.Base.Split.{avoids, avoids-All}
use cornus.Tcp.Request.{header_delim, message_end, TcpRequest, parse_request}
use cornus.Tcp.Frame.RoundTrip.{NoEnd, message}
use cornus.Tcp.Socket.{brings, fails, SendAnswer}
use cornus.Tcp.Socket.Laws.{rounds_for, bring}
use cornus.Tcp.Connection.{returns_zero, new_connection, handle_connection, register_callback}
use cornus.Tcp.Connection.Serving.{reply}
use cornus.Tcp.Connection.Conversation.{
  Exchange, IsSent, arrivals_of, replies, all_calls, handle_connection-converse,
}
use cornus.Tcp.Connection.Returning.{Returns, handle_connection-Returns}
use cornus.Tcp.Client.{TcpClient, gives, Socket, send_request}
use cornus.Tcp.Client.Call.{send_request-receives}
use cornus.Tcp.Rpc.{response_text, IsCall, Cut, send_request-handle_connection}
use cornus.Tcp.Hello.{handle_hello, hello_callbacks}
use cornus.Checks.Tcp.{
  ends, hello, world, hello-IsPart, world-IsPart, eager, eager-Accepts, length-eager,
}

pub some_byte : (c : ℕ) (s : Bytes) → (c ∷ s) ≢ []
some_byte c s e = cc

-- "hello world" arrives in two pieces.
abbrev there : Cut (message hello world)
unfolding codes flatten
there = record {
  pieces = codes "hel" ∷ (codes "lo" ++ (header_delim ∷ (world ++ (message_end ∷ [])))) ∷ [];
  some_bytes = (some_byte _ _, (some_byte _ _, tt));
  whole = refl;
}

abbrev pub server_client : TcpClient
server_client = record { sockfd = 4; valid = true; peer = record { addr = []; port = 9500 } }

abbrev nothing_arrived : Socket
nothing_arrived = record { arrivals = []; answers = []; sent = [] }

long_text : ℕ → Bytes
long_text zero = []
long_text (suc n) = b'x' ∷ long_text n

length-long_text : (n : ℕ) → length (long_text n) ≡ n
unfolding long_text
length-long_text zero = refl
length-long_text (suc n) = omega (arith, length-long_text n)

abbrev greeting : Bytes
greeting = codes "Hello, world"

greeting-NoEnd : NoEnd greeting
unfolding codes avoids
greeting-NoEnd = ends greeting (avoids-All header_delim message_end greeting refl)

hello_world : TcpRequest
hello_world = parse_request hello world

knows_hello : get Bytes-discrete hello_callbacks hello ≡ some handle_hello
unfolding hello_callbacks register_callback get put lookup without codes Bytes-discrete ℕ_discrete
knows_hello = refl

hello-reply : reply hello_callbacks hello world ≡ greeting ++ (message_end ∷ [])
unfolding handle_hello codes parse_request
hello-reply = rw knows_hello refl

abbrev exchanges : List Exchange
exchanges = record { endpoint = hello; request = world; pieces = there.pieces } ∷ []

exchanges-IsSent : All (IsSent hello_callbacks) exchanges
unfolding codes
exchanges-IsSent = (
  record {
    endpoint_part = hello-IsPart;
    request_part = world-IsPart;
    some_bytes = there.some_bytes;
    whole = there.whole;
    size = omega arith;
    reply_size = rw hello-reply (omega arith);
  },
  tt,
)

handle_connection-converse_example :
    (left : List SendAnswer) × (handle_connection 3 hello_callbacks
        (new_connection (arrivals_of exchanges) (eager 20))
      ≡ (
        some returns_zero,
        record {
          buffer = [];
          arrivals = [];
          answers = left;
          sent = replies hello_callbacks exchanges;
          handled = all_calls hello_callbacks exchanges;
        },
      ))
unfolding codes there
handle_connection-converse_example =
    handle_connection-converse hello_callbacks exchanges (eager 20) 3 exchanges-IsSent
      (eager-Accepts 20)
      (omega (
        arith,
        length-eager 20,
        ap length hello-reply,
        length-append (reply hello_callbacks hello world) [],
      ))
      (omega arith)

abbrev back : Cut (greeting ++ (message_end ∷ []))
unfolding codes flatten
back = record {
  pieces = codes "Hello, w" ∷ (codes "orld" ++ (message_end ∷ [])) ∷ [];
  some_bytes = (some_byte _ _, (some_byte _ _, tt));
  whole = refl;
}

abbrev waiting : Socket
waiting = record { arrivals = bring back.pieces []; answers = eager 20; sent = [] }

send_request-receives_example :
    (answers : List SendAnswer) × (send_request
        (rounds_for back.pieces 0)
        server_client
        waiting
        hello_world
      ≡ (
        gives (some (record { response = greeting })),
        record { arrivals = []; answers = answers; sent = message hello world },
      ))
unfolding codes hello_world parse_request
send_request-receives_example =
    send_request-receives server_client waiting hello_world refl greeting back.pieces [] 0
      (omega arith) (eager-Accepts 20) (omega (arith, length-eager 20)) refl back.some_bytes
      back.whole greeting-NoEnd (omega arith)

hello-IsCall : IsCall handle_hello hello_world
unfolding codes hello_world parse_request handle_hello
hello-IsCall = record {
  endpoint_part = hello-IsPart;
  request_part = world-IsPart;
  size = omega arith;
  response_part = greeting-NoEnd;
  response_size = omega arith;
}

send_request-handle_connection_example :
    (server_left client_left : List SendAnswer) × (handle_connection 3 hello_callbacks
        (new_connection (bring there.pieces []) (eager 20))
      ≡ (
        some returns_zero,
        record {
          buffer = [];
          arrivals = [];
          answers = server_left;
          sent = response_text handle_hello hello_world ++ (message_end ∷ []);
          handled = parse_request hello world ∷ [];
        },
      ))
    × (send_request 3 server_client waiting hello_world ≡ (
      gives (some (record { response = response_text handle_hello hello_world })),
      record { arrivals = []; answers = client_left; sent = message hello world },
    ))
unfolding codes hello_world parse_request handle_hello there
send_request-handle_connection_example =
    send_request-handle_connection hello_callbacks handle_hello hello_world server_client (eager 20)
      (eager 20) there back 3 knows_hello hello-IsCall refl (eager-Accepts 20) (eager-Accepts 20)
      (omega (arith, length-eager 20)) (omega (arith, length-eager 20)) (omega arith) (omega arith)

-- An error, and then a part of a response.
abbrev interrupted : Socket
interrupted = record {
  arrivals = brings greeting ∷ fails ∷ brings greeting ∷ [];
  answers = eager 20;
  sent = [];
}

-- A request in two pieces, and the peer closes.
handle_connection-Returns_example :
    Returns
      (handle_connection 20 hello_callbacks
        (new_connection (bring there.pieces []) (eager 10240))).0
unfolding codes there
handle_connection-Returns_example =
    handle_connection-Returns 20 hello_callbacks
      (new_connection (bring there.pieces []) (eager 10240)) (omega arith) (eager-Accepts 10240)
      (omega arith) (omega (arith, length-eager 10240))
