-- ===== src/Tcp/Server.antt =====
-- The class TCPServer around its connections. The calls of the operating system that set a socket up
-- are a record of what they answer; the answers of `accept` are a list, behind which it waits for ever.
-- Each connection is handled on a thread of its own.
pub mod Accepting
use cornus.Base.{
  ℕ, Bool, true, false, Option, none, some, Bytes, List, [], ◌∷◌, map, not, if◌then◌else◌,
}
use cornus.Base.Dict.{empty}
use cornus.Tcp.Client.{SockAddr}
use cornus.Tcp.Connection.{
  Callback, Callbacks, Connection, Ended, register_callback, handle_connection,
}

pub record TcpServer : Type 0 where
  pub port : ℕ
  pub queue_size : ℕ
  pub callbacks : Callbacks

-- Whether each call succeeds; `getsockname` gives the port in network order.
pub record System : Type 0 where
  pub socket : Bool
  pub setsockopt : Bool
  pub bind : SockAddr → Bool
  pub getsockname : Option ℕ
  pub listen : ℕ → Bool
  pub accepts : List (Option Connection)
  pub htons : ℕ → ℕ
  pub ntohs : ℕ → ℕ
  -- INADDR_ANY
  pub inaddr_any : Bytes

-- `TCPServer(port, queue_size)`
unfoldable pub new_server : ℕ → ℕ → TcpServer
new_server port queue_size = record { port = port; queue_size = queue_size; callbacks = empty }

-- `registerCallback`
unfoldable pub register : TcpServer → Bytes → Callback → TcpServer
unfolding register_callback
register server endpoint callback = record server {
  callbacks = register_callback server.callbacks endpoint callback;
}

make_server_sockaddr : System → ℕ → SockAddr
make_server_sockaddr sys port = record { addr = sys.inaddr_any; port = sys.htons port }

-- `none` is the result -1.
port_number : System → Option ℕ → Option ℕ
port_number sys none = none
port_number sys (some port) = some (sys.ntohs port)

unfoldable pub get_port_number : System → Option ℕ
unfolding port_number
get_port_number sys = port_number sys sys.getsockname

-- What a run of the server has done: it has printed the port that it listens on, and it has given
-- connections to threads.
pub record Served : Type 0 where
  -- The result, when it returns.
  pub result : Option ℕ
  pub printed : Option (Option ℕ)
  pub started : List Connection

-- `while (true)`, with the connections so far and the result of the function.
accept_loop : List (Option Connection) → Option ℕ × List Connection
accept_loop [] = (none, [])
accept_loop (none ∷ accepts) = (some 1, [])
accept_loop (some c ∷ accepts) = let (result, rest) = accept_loop accepts in (result, c ∷ rest)

serve_accepted : Option (Option ℕ) → Option ℕ × List Connection → Served
serve_accepted printed (result, started) = record {
  result = result;
  printed = printed;
  started = started;
}

failure : Option (Option ℕ) → Served
failure printed = record { result = some 1; printed = printed; started = [] }

-- `run_server`, and `runServer`, which returns 1 for its -1.
unfoldable pub run_server : System → TcpServer → Served
unfolding accept_loop serve_accepted failure make_server_sockaddr get_port_number
run_server sys server =
    if not sys.socket
    then failure none
    else if not sys.setsockopt
    then failure none
    else if not (sys.bind (make_server_sockaddr sys server.port))
    then failure none
    else if not (sys.listen server.queue_size)
    then failure (some (get_port_number sys))
    else serve_accepted (some (get_port_number sys)) (accept_loop sys.accepts)

-- What the threads come to.
unfoldable pub run_threads : ℕ → TcpServer → List Connection → List (Option Ended × Connection)
unfolding handle_connection
run_threads fuel server [] = []
run_threads fuel server (c ∷ started) =
    handle_connection fuel server.callbacks c ∷ run_threads fuel server started
