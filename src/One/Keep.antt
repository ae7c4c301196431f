-- ===== src/One/Keep.antt =====
-- The whole runtime keeps each predicate that its elementary steps keep.
pub mod Satisfy
pub mod Calls
pub mod Tasks
pub mod Api
