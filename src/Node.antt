-- ===== src/Node.antt =====
-- Cornus/include/messaging/GlobalMessageHandler.hpp, the driver of a node; the queue of a handler; and the
-- start of a node.
pub mod TxId
pub mod Handlers
pub mod Queue
pub mod Requests
pub mod Main
pub mod TypeName
