-- ===== src/Echo.antt =====
-- network/echo: the echo servers and clients, by the system call that they wait with.
pub mod Sys
pub mod Slots
pub mod Select
pub mod Poll
pub mod Epoll
pub mod Worker
pub mod Client
mod Tests
