-- ===== src/Dbms.antt =====
-- The simulated DBMS (DBMS/): a log for each transaction and client, behind HTTP.
pub mod Log
pub mod Manager
pub mod Print
pub mod History
pub mod Steps
pub mod Calls
pub mod Server
pub mod Client
