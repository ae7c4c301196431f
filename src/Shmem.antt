-- ===== src/Shmem.antt =====
-- The runtime on threads (include/shmem).
pub mod Allocator
pub mod FirstFit
pub mod Defragment
pub mod Calls
pub mod Event
pub mod Locking
mod Tests
