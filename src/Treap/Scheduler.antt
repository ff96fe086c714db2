-- ===== src/Treap/Scheduler.antt =====
-- lib/treap/scheduler.hpp: the pipelined execution of updates.
pub mod Store
pub mod Task
pub mod Ghost
pub mod Walk
pub mod Placing
pub mod Operating
pub mod Found
pub mod Updating
pub mod Invariant
pub mod Advance
pub mod Filling
pub mod Attach
pub mod Settled
pub mod Stepped
pub mod ConcatStep
pub mod Steps
pub mod Complete
pub mod Machine
pub mod Threads
pub mod Issue
pub mod Protocol
pub mod Change
pub mod Dependence
pub mod Issuing
pub mod Counting
pub mod Tokens
pub mod Outcome
pub mod Order
pub mod Requests
pub mod Runs
pub mod Publish
pub mod Stage
pub mod Passing
pub mod Piping
pub mod Working
pub mod Executing
pub mod WorkerTurn
pub mod Mastering
pub mod Sizes
pub mod Serializable
pub mod Start
