-- ===== src/Treap.antt =====
-- lib/treap: the persistent treap.
pub mod Node
pub mod Augment
pub mod SearchInsert
pub mod SearchDelete
pub mod Represents
pub mod Build
pub mod Query
pub mod Update
pub mod Scheduler
