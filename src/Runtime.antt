-- ===== src/Runtime.antt =====
-- runtime: the bounded queue that serialises all work of the process.
pub mod Queue
pub mod Stats
pub mod Invariant
pub mod Order
pub mod Drain
