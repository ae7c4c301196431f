-- ===== src/Distributed.antt =====
-- The distributed runtime (include/distributed and src/distributed).
pub mod Guid
pub mod Packing
pub mod Tables
pub mod Repository
pub mod Objects
pub mod Cache
mod Tests
