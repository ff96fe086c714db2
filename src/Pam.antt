-- ===== src/Pam.antt =====
-- lib/pam: batches of updates on a treap whose nodes keep their values by version.
pub mod Node
pub mod Augment
pub mod Build
pub mod BuildVersioned
pub mod CopyMerge
pub mod CopySubtract
pub mod Query
pub mod Interface
pub mod Sums
