-- ===== src/Tcp.antt =====
-- Cornus/include/messaging/tcp.hpp: requests and responses on byte streams, the server and the client.
pub mod Request
pub mod Frame
pub mod Socket
pub mod Connection
pub mod Client
pub mod Server
pub mod Async
pub mod Rpc
pub mod Hello
pub mod Typed
