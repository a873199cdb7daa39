-- ===== src/Dbms/Client.antt =====
-- Cornus/include/messaging/dbms.hpp: how a node calls the DBMS. The HTTP client is a parameter, a
-- record of its two calls, which may change the state `W` of the world; `none` is a failed call, whose
-- result has no response. Reading the body of a missing response is undefined: also `none`.
pub mod OverHttp
use cornus.Base.{ℕ, String, Option, none, some, Bytes}
use cornus.Config.Transaction.{HostId}
use cornus.Dbms.Manager.{LogType}
use cornus.Dbms.Server.{get_path}

pub record HttpClient (W : Type 0) : Type 0 where
  pub post : Bytes → String → W → Option String × W
  pub get : Bytes → W → Option String × W

-- `LogImpl`: what a log has to offer.
pub record LogImpl (W : Type 0) : Type 0 where
  pub log_once : String → ℕ → HostId → LogType → HttpClient W → W → Option String × W
  pub log_write : String → ℕ → HostId → LogType → HttpClient W → W → Option String × W
  pub log_read : ℕ → HostId → LogType → HttpClient W → W → Option String × W

-- `TemplatedRequestInterface`; `none` is the null pointer before `init`, and a call through it.
abbrev pub RequestInterface : Type 0 → Type 0
RequestInterface W = Option (LogImpl W)

module _ {W : Type 0} where
  unfoldable pub request_once :
      RequestInterface W → String → ℕ → HostId → LogType → HttpClient W → W → Option String × W
  request_once none request tx_id host_id type cli w = (none, w)
  request_once (some impl) request tx_id host_id type cli w =
      impl.log_once request tx_id host_id type cli w

  unfoldable pub request_write :
      RequestInterface W → String → ℕ → HostId → LogType → HttpClient W → W → Option String × W
  request_write none request tx_id host_id type cli w = (none, w)
  request_write (some impl) request tx_id host_id type cli w =
      impl.log_write request tx_id host_id type cli w

  unfoldable pub request_read :
      RequestInterface W → ℕ → HostId → LogType → HttpClient W → W → Option String × W
  request_read none tx_id host_id type cli w = (none, w)
  request_read (some impl) tx_id host_id type cli w = impl.log_read tx_id host_id type cli w

  -- SimulatedDBMSImpl: each method returns the body of the response.
  unfoldable pub simulated_dbms : LogImpl W
  unfolding get_path
  simulated_dbms = record {
    log_once =
        λ request tx_id host_id type cli. cli.post (get_path "LOG_ONCE" tx_id host_id type) request;
    log_write = λ request tx_id host_id type cli.
        cli.post (get_path "LOG_WRITE" tx_id host_id type) request;
    log_read = λ tx_id host_id type cli. cli.get (get_path "LOG_READ" tx_id host_id type);
  }

  -- `DBMSInterface::init`
  unfoldable pub init_dbms : RequestInterface W
  unfolding simulated_dbms
  init_dbms = some simulated_dbms
