-- ===== src/Common.antt =====
-- What the runtimes share (include/common).
pub mod ThreadQueue
