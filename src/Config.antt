-- ===== src/Config.antt =====
-- Cornus/include/config/: what a node and a transaction are told.
pub mod Host
pub mod Transaction
