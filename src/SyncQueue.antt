-- ===== src/SyncQueue.antt =====
-- condition_variable: the two blocking queues and the programs that use them. A method runs under
-- the mutex and is one step, which ends with its return or with the beginning of a wait.
pub mod Waiting
pub mod Bounded
pub mod Simple
pub mod Channel
pub mod Order
pub mod Demo
mod Tests
