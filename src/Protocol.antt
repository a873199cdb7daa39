-- ===== src/Protocol.antt =====
-- One transaction of the paper's version: the coordinator, the participants, the DBMS and the network,
-- interleaved in any order.
pub mod System
pub mod World
pub mod Mail
pub mod Handlers
pub mod Invariant
pub mod Preserve
pub mod Agreement
pub mod Durable
pub mod Effects
pub mod Waiting
pub mod Nonblocking
pub mod Schedule
