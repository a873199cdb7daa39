-- ===== src/Tcp/Typed.antt =====
-- Cornus/include/messaging/Response.hpp: a response with a type and a transaction id. No other code uses
-- it, and its comparison is not written yet.
use cornus.Base.{ℕ, Bool, true}
use cornus.Tcp.Request.{TcpResponse}

pub data ResponseType : Type 0 where
  ack err : ResponseType

pub record Response : Type 0 where
  pub type : ResponseType
  pub tx_id : ℕ
  pub res : TcpResponse

-- `operator==`, which tells no two responses apart
unfoldable pub same_response : Response → Response → Bool
same_response r1 r2 = true
