-- ===== src/One.antt =====
-- The single-process runtime (include/one and src/one).
pub mod Types
pub mod Monad
pub mod Db
pub mod Node
pub mod Edges
pub mod Create
pub mod Tasks
pub mod Run
pub mod Logic
pub mod Reads
pub mod Stable
pub mod Keep
pub mod Schedule
pub mod ReadyQueue
pub mod Blocks
pub mod Samples
pub mod EventStates
pub mod Latch
pub mod Order
pub mod Labels
pub mod Arguments
pub mod AnyOrder
mod Tests
pub mod Cascade
