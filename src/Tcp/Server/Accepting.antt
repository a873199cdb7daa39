-- ===== src/Tcp/Server/Accepting.antt =====
-- Which connections a server handles.
use cornus.Base.{
  ℕ, ◌<◌, ◌≡◌, refl, Bool, true, false, Option, none, some, List, [], ◌∷◌, All, arith,
  if◌then◌else◌,
}
use cornus.Tcp.Socket.Laws.{arrived}
use cornus.Tcp.Connection.{Connection}
use cornus.Tcp.Connection.Ending.{IsEnded, handle_connection-IsEnded}
use cornus.Tcp.Server.{
  TcpServer, System, make_server_sockaddr, accept_loop, serve_accepted, failure, run_server,
  run_threads,
}

-- The connections that are accepted before `accept` fails.
abbrev pub accepted : List (Option Connection) → List Connection
accepted [] = []
accepted (none ∷ accepts) = []
accepted (some c ∷ accepts) = c ∷ accepted accepts

-- Whether `accept` fails at last.
abbrev pub fails_at_last : List (Option Connection) → Bool
fails_at_last [] = false
fails_at_last (none ∷ accepts) = true
fails_at_last (some c ∷ accepts) = fails_at_last accepts

-- The calls before the first `accept` succeed.
abbrev pub IsReady : System → TcpServer → Type 0
IsReady sys server =
    (sys.socket ≡ true)
    × (sys.setsockopt ≡ true)
    × (sys.bind (record { addr = sys.inaddr_any; port = sys.htons server.port }) ≡ true)
    × (sys.listen server.queue_size ≡ true)

loop-accepted :
    (accepts : List (Option Connection))
    → accept_loop accepts ≡ ((if fails_at_last accepts then some 1 else none), accepted accepts)
unfolding accept_loop
loop-accepted [] = refl
loop-accepted (none ∷ accepts) = refl
loop-accepted (some c ∷ accepts) = rw (loop-accepted accepts) refl

threads-IsEnded :
    (fuel : ℕ) (server : TcpServer) (cs : List Connection)
    → All (λ c. arrived c.arrivals < fuel) cs
    → All IsEnded (run_threads fuel server cs)
unfolding run_threads
threads-IsEnded fuel server [] h = tt
threads-IsEnded fuel server (c ∷ cs) (h, hs) =
    (handle_connection-IsEnded fuel server.callbacks c h, threads-IsEnded fuel server cs hs)

-- A server whose socket can be set up starts one thread for each connection that is accepted before
-- `accept` fails, in that order, and for no other; it returns 1 if `accept` fails and otherwise never;
-- and no thread lacks fuel, with more rounds than bytes and errors arrive at any of its connections.
pub run_server-accepted :
    (sys : System) (server : TcpServer) (fuel : ℕ)
    → IsReady sys server
    → All (λ c. arrived c.arrivals < fuel) (accepted sys.accepts)
    → ((run_server sys server).started ≡ accepted sys.accepts)
      × ((run_server sys server).result ≡ (if fails_at_last sys.accepts then some 1 else none))
      × All IsEnded (run_threads fuel server (run_server sys server).started)
unfolding run_server make_server_sockaddr serve_accepted
run_server-accepted sys server fuel (s, o, b, l) h =
    rw (s, o, b, l, loop-accepted sys.accepts)
      (refl, refl, threads-IsEnded fuel server (accepted sys.accepts) h)

-- When a call before the first `accept` fails, the server returns 1 and accepts nothing.
pub run_server-refused :
    (sys : System) (server : TcpServer)
    → ¬ IsReady sys server
    → ((run_server sys server).started ≡ []) × ((run_server sys server).result ≡ some 1)
unfolding run_server make_server_sockaddr failure serve_accepted
run_server-refused sys server h = ground arith
