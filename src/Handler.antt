-- ===== src/Handler.antt =====
-- Cornus/include/transactionHandlers/: the four kinds of handlers, in the paper's version and the new
-- one, as programs over the effects of `Prog`; what they send and on which connections; the timer and
-- the worker that they use.
pub mod Prog
pub mod Sender
pub mod Links
pub mod Timer
pub mod Worker
pub mod Wire
pub mod Paper
pub mod New
pub mod Alone
pub mod Poll
