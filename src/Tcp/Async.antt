-- ===== src/Tcp/Async.antt =====
-- The asynchronous requests of TCPClient, and `resolveFutures` of Cornus/include/utils.hpp. A future stands
-- for a thread that has its client and its socket to itself, so only its result matters.
use cornus.Base.{ℕ, Bytes, List, [], ◌∷◌}
use cornus.Tcp.Request.{TcpRequest}
use cornus.Tcp.Client.{Network, TcpClient, Reply, Socket, send_request, send_request_to}

pub record Future (A : Type 0) : Type 0 where
  -- `get`
  pub result : A

unfoldable pub send_request_async : ℕ → TcpClient → Socket → TcpRequest → Future (Reply × Socket)
unfolding send_request
send_request_async fuel client k req = record { result = send_request fuel client k req }

unfoldable pub send_request_async_to :
    ℕ → Network → ℕ → Bytes → ℕ → Socket → TcpRequest → Future (Reply × Socket)
unfolding send_request_to
send_request_async_to fuel net opened hostname port k req = record {
  result = send_request_to fuel net opened hostname port k req;
}

-- All futures are awaited, in order.
unfoldable pub resolve_futures : {A : Type 0} → List (Future A) → List A
resolve_futures [] = []
resolve_futures (f ∷ futs) = f.result ∷ resolve_futures futs
