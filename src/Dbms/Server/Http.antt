-- ===== src/Dbms/Server/Http.antt =====
-- `main` of DBMS/main.cpp: its arguments and its routes, with the HTTP library's router.
use cornus.Base.{ℕ, String, Option, none, some, Bytes, List, [], ◌∷◌, codes}
use cornus.Base.Decimal.{stoi}
use cornus.Dbms.Manager.{LogManager}
use cornus.Dbms.Server.{PathParams, on_log_once, on_log_read, on_log_write}
use cornus.Dbms.Server.Paths.{Router}

-- What the HTTP library does with a request: it looks for the route of a path, and it answers with
-- bodies of its own where there is none or a handler throws.
pub record HttpServer : Type 0 where
  pub route : Router
  pub not_found : String
  pub on_exception : String

-- `res.set_content`, or an exception.
abbrev pub body_of : HttpServer → Option String × LogManager → Option String × LogManager
body_of s (none, m) = (some s.on_exception, m)
body_of s (some body, m) = (some body, m)

module _ (s : HttpServer) where
  by_once : String → LogManager → Option PathParams → Option String × LogManager
  unfolding on_log_once
  by_once body m none = (some s.not_found, m)
  by_once body m (some ps) = body_of s (on_log_once m ps body)

  -- The routes of `Post`, in the order in which they are registered.
  by_write : Bytes → String → LogManager → Option PathParams → Option String × LogManager
  unfolding by_once on_log_write
  by_write path body m none = by_once body m (s.route "LOG_ONCE" path)
  by_write path body m (some ps) = body_of s (on_log_write m ps body)

  unfoldable pub serve_post : Bytes → String → LogManager → Option String × LogManager
  unfolding by_write
  serve_post path body m = by_write path body m (s.route "LOG_WRITE" path)

  by_read : LogManager → Option PathParams → Option String × LogManager
  unfolding on_log_read
  by_read m none = (some s.not_found, m)
  by_read m (some ps) = body_of s (on_log_read m ps)

  unfoldable pub serve_get : Bytes → LogManager → Option String × LogManager
  unfolding by_read
  serve_get path m = by_read m (s.route "LOG_READ" path)

-- How `main` starts: an exception about the usage or the port, or a server on a host and a port. A
-- latency is whatever `atoi` of the C library makes of an argument.
pub data Start (Latency : Type 0) : Type 0 where
  usage_error bad_port : Start Latency
  listens : Bytes → ℕ → Latency → Start Latency

listen : {Latency : Type 0} → Bytes → Latency → Option ℕ → Start Latency
listen host latency none = bad_port
listen host latency (some port) = listens host port latency

-- The arguments behind the program's name.
unfoldable pub dbms_main :
    {Latency : Type 0} → (Bytes → Latency) → Latency → List Bytes → Start Latency
unfolding listen
dbms_main atoi ten [] = usage_error
dbms_main atoi ten (port ∷ []) = listen (codes "localhost") ten (stoi port)
dbms_main atoi ten (port ∷ latency ∷ []) = listen (codes "localhost") (atoi latency) (stoi port)
dbms_main atoi ten (port ∷ latency ∷ host ∷ []) = listen host (atoi latency) (stoi port)
dbms_main atoi ten (port ∷ latency ∷ host ∷ more ∷ rest) = usage_error
