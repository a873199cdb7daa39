-- ===== src/Dbms/Client/OverHttp.antt =====
-- The calls of a node reach the log manager.
use cornus.Base.{ℕ, String, ◌<◌, ◌^◌, ◌≡◌, refl, none, Bytes, ◌∷◌, ◌++◌, codes}
use cornus.Base.Decimal.{to_string}
use cornus.Config.Transaction.{HostId}
use cornus.Dbms.Manager
use cornus.Dbms.Manager.{LogType, LogAddress, LogManager}
use cornus.Dbms.Server.{get_path, on_log_once, on_log_write, on_log_read, answer, type_word}
use cornus.Dbms.Server.Paths.{
  Router, Matches, IsPlain, get_log_address-get_path, to_string-IsPlain, type_word-IsPlain,
}
use cornus.Dbms.Server.Http.{HttpServer, body_of, serve_post, serve_get}
use cornus.Dbms.Client.{HttpClient, init_dbms, request_once, request_write, request_read}

-- A path of one endpoint does not fit the route of another.
abbrev pub Separates : Router → Type 0
Separates route =
    (a b c : Bytes)
    → IsPlain a
    → IsPlain b
    → IsPlain c
    → route "LOG_WRITE" (b'/' ∷ (codes "LOG_ONCE" ++ (b'/' ∷ (a ++ (b'/' ∷ (b ++ (b'/' ∷ c)))))))
      ≡ none

-- A client of the server `s`, on a network without failures.
abbrev pub over_http : HttpServer → HttpClient LogManager
over_http s = record { post = serve_post s; get = serve_get s }

-- What each call of a node comes to at the manager, by a log's address.
pub record IsServed (s : HttpServer) (tx_id : ℕ) (host_id : HostId) (type : LogType)
    (m : LogManager) : Type 0 where
  pub once :
      (d : String)
      → request_once init_dbms d tx_id host_id type (over_http s) m
        ≡ body_of s (
            cornus.Dbms.Manager.log_once m
              (record { tx_id = tx_id; client_id = host_id; type = type })
              d)
  pub write :
      (d : String)
      → request_write init_dbms d tx_id host_id type (over_http s) m
        ≡ body_of s (
            cornus.Dbms.Manager.log_write m
              (record { tx_id = tx_id; client_id = host_id; type = type })
              d)
  pub read :
      request_read init_dbms tx_id host_id type (over_http s) m
      ≡ body_of s (
          cornus.Dbms.Manager.log_read m
            (record { tx_id = tx_id; client_id = host_id; type = type }))

-- On a network without failures, and with a router that finds plain path parameters and tells the
-- endpoints apart, a node's LOG_ONCE, LOG_WRITE and LOG_READ return what the method of the same name of
-- the log manager returns for the log of that transaction, host and type, and change the manager as it
-- does; where the method throws they return the library's body for an exception. The transaction id
-- fits 64 bits and the host's name is plain.
pub request-IsServed :
    (s : HttpServer) (tx_id : ℕ) (host_id : HostId) (type : LogType) (m : LogManager)
    → Matches s.route
    → Separates s.route
    → tx_id < 2 ^ 64
    → IsPlain host_id
    → IsServed s tx_id host_id type m
unfolding request_once request_write request_read init_dbms serve_post serve_get on_log_once
    on_log_write on_log_read answer
request-IsServed s tx_id host_id type m matches separates h p =
    let (ps, found, ok) =
      get_log_address-get_path s.route matches "LOG_ONCE" tx_id host_id type h p in
    let (ps', found', ok') =
      get_log_address-get_path s.route matches "LOG_WRITE" tx_id host_id type h p in
    let (ps'', found'', ok'') =
      get_log_address-get_path s.route matches "LOG_READ" tx_id host_id type h p in
    let other : s.route "LOG_WRITE" (get_path "LOG_ONCE" tx_id host_id type) ≡ none =
      unfold get_path in
      separates (to_string tx_id) host_id (type_word type) (to_string-IsPlain tx_id h) p
        (type_word-IsPlain type) in
    record {
      once = λ d. rw (other, found, ok) refl;
      write = λ d. rw (found', ok') refl;
      read = rw (found'', ok'') refl;
    }
