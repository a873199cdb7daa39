-- ===== src/Checks/Requests.antt =====
-- Requests that reach a node, its servers and its connections, on concrete inputs.
use cornus.Base.{
  ℕ, ◌+◌, ◌≤◌, length, ◌≡◌, refl, true, false, none, some, Bytes, List, [], ◌∷◌, codes, arith,
}
use cornus.Base.Split.{has_byte, before, behind, avoids, avoids-All}
use cornus.Base.Dict.{empty}
use cornus.Base.Decimal.{stoi}
use cornus.Handler.Prog.{Packet, will_commit, vote_yes}
use cornus.Handler.Wire.{packet_request}
use cornus.Handler.Wire.Clean.{IsClean}
use cornus.Handler.Links.{Clients, group_clients}
use cornus.Handler.Links.Reuse.{IsReachable, Keeps, group_clients-again}
use cornus.Handler.Timer.{EventTimer, record_at, dump}
use cornus.Node.Handlers.{
  paper_version, replicator_kind, replicators, handlers, Event, tells, on_new_request,
}
use cornus.Node.Requests.{NodeState, thread_events}
use cornus.Node.Requests.Arriving.{IsWritable, thread_events-packet_request}
use cornus.Tcp.Request.{key_value_delim, pair_delim, parse_request}
use cornus.Tcp.Socket.{brings}
use cornus.Tcp.Client.{Network, TcpClient, new_client, parse_address, init, make_client_sockaddr}
use cornus.Tcp.Connection.{new_connection}
use cornus.Tcp.Server.{System, run_server}
use cornus.Tcp.Server.Accepting.{IsReady, run_server-refused}
use cornus.Tcp.Hello.{hello_server}
use cornus.Checks.Visit.{in_order, in_order-Visits}
use cornus.Checks.Node.{idle}

abbrev pub vote_request : Packet
vote_request = record {
  to = codes "h:2";
  endpoint = "VOTEREQ";
  config = some (codes "h:1 h:2 h:3 ");
  txid = 65537;
  sender = codes "h:1";
}

vote_request-IsClean : IsClean key_value_delim pair_delim vote_request
unfolding codes avoids
vote_request-IsClean = record {
  endpoint = avoids-All key_value_delim pair_delim (codes "VOTEREQ") refl;
  sender = avoids-All key_value_delim pair_delim (codes "h:1") refl;
  config = avoids-All key_value_delim pair_delim (codes "h:1 h:2 h:3 ") refl;
}

pub vote_request-IsWritable : IsWritable vote_request
vote_request-IsWritable = record { txid = omega arith; texts = vote_request-IsClean }

abbrev will_request : Packet
will_request = record vote_request { endpoint = "WILLCOMMIT" }

will_request-IsWritable : IsWritable will_request
unfolding codes avoids
will_request-IsWritable = record {
  txid = omega arith;
  texts = record {
    endpoint = avoids-All key_value_delim pair_delim (codes "WILLCOMMIT") refl;
    sender = vote_request-IsClean.sender;
    config = vote_request-IsClean.config;
  };
}

-- A WILLCOMMIT ends a node of the paper's version.
no_replicator :
    thread_events paper_version
      (on_new_request replicator_kind will_commit replicators)
      (parse_request (codes "WILLCOMMIT") (packet_request in_order will_request).request)
    ≡ none
no_replicator =
    thread_events-packet_request paper_version in_order in_order-Visits will_request
      (on_new_request replicator_kind will_commit replicators) will_request-IsWritable

abbrev node_state : NodeState
node_state = record {
  ids = record { node_id = 3; transaction_counter = 1 };
  node = idle;
  hostname = codes "h:1";
}

-- Two votes for the transaction, and one for another.
abbrev votes : List Event
votes =
    tells 65539 vote_yes handlers ∷ tells 7 vote_yes handlers ∷ tells 65539 vote_yes handlers ∷ []

-- Every host has an address, and every connection succeeds.
abbrev network : Network
network = record {
  socket = λ opened. opened + 3;
  gethostbyname = λ host. some host;
  htons = λ port. port;
  connect = λ addr. true;
}

abbrev client_of : ℕ → Bytes → ℕ → TcpClient
client_of opened host port = record {
  sockfd = opened + 3;
  valid = true;
  peer = record { addr = host; port = port };
}

h1-IsReachable : IsReachable network (codes "h:1")
unfolding codes new_client parse_address init make_client_sockaddr stoi has_byte before behind
h1-IsReachable = λ opened. (client_of opened (codes "h") 1, refl)

h2-IsReachable : IsReachable network (codes "h:2")
unfolding codes new_client parse_address init make_client_sockaddr stoi has_byte before behind
h2-IsReachable = λ opened. (client_of opened (codes "h") 2, refl)

abbrev no_clients : Clients
no_clients = record { entries = empty; opened = 4 }

group_clients-again_example :
    (cs : List TcpClient) × (clients' : Clients) × (group_clients network no_clients
        (codes "h:2" ∷ codes "h:1" ∷ [])
      ≡ some (cs, clients'))
    × Keeps no_clients clients'
    × (length cs ≡ 2)
    × (clients'.opened ≤ 6)
    × ((later : Clients)
        → Keeps clients' later
        → group_clients network later (codes "h:2" ∷ codes "h:1" ∷ []) ≡ some (cs, later))
group_clients-again_example =
    group_clients-again network no_clients (codes "h:2" ∷ codes "h:1" ∷ [])
      (h2-IsReachable, (h1-IsReachable, tt))

abbrev two_calls : System
two_calls = record {
  socket = true;
  setsockopt = true;
  bind = λ addr. true;
  getsockname = some 9500;
  listen = λ n. true;
  accepts =
      some (new_connection (brings (codes "hel") ∷ []) [])
      ∷ some (new_connection [] [])
      ∷ none
      ∷ [];
  htons = λ port. port;
  ntohs = λ port. port;
  inaddr_any = [];
}

abbrev port_taken : System
port_taken = record two_calls { bind = λ addr. false }

port_taken-IsReady : ¬ IsReady port_taken hello_server
port_taken-IsReady (s, o, b, l) = absurd (cc)

port_taken_started : (run_server port_taken hello_server).started ≡ []
port_taken_started = (run_server-refused port_taken hello_server port_taken-IsReady).0

-- Two events of a transaction.
abbrev watch : EventTimer
unfolding record_at
watch = record_at (record_at (record { events = [] }) 3 (codes "start")) 8 (codes "vote")

watch_dumped : dump (λ start end. codes "5") watch ≡ codes "EventSummary: {{start to vote=5}}"
unfolding dump codes record_at
watch_dumped = refl
