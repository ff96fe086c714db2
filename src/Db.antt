-- ===== src/Db.antt =====
-- db: the database backends behind one interface.
pub mod Interface
pub mod QueryProcessor
pub mod Sequential
pub mod Batch
pub mod Contreap
pub mod Logging
pub mod ClientThreads
