-- ===== src/Locks.antt =====
-- mutex/: threads that share a counter or a queue under a mutex.
pub mod Counter
pub mod Held
pub mod Counted
pub mod Queue
pub mod Guard
pub mod Guarded
pub mod Released
mod Tests
