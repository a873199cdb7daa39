-- ===== src/Checks.antt =====
-- The definitions run on concrete inputs, and each theorem with hypotheses applied at one.
pub mod Visit
pub mod Tcp
pub mod Connection
pub mod Requests
pub mod EndToEnd
pub mod Protocol
pub mod NewProtocol
pub mod Handlers
pub mod Dbms
pub mod Config
pub mod Node
pub mod Server
