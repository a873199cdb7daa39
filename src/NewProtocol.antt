-- ===== src/NewProtocol.antt =====
-- One transaction of the new version: the coordinator, its background thread, the participants, the
-- replicators, the committers, the DBMS and the network, interleaved in any order.
pub mod System
pub mod Progress
pub mod Safe
pub mod Handlers
pub mod Invariant
pub mod Growth
pub mod Moves
pub mod Preserve
pub mod Agreement
pub mod Waiting
pub mod Nonblocking
pub mod Schedule
