-- ===== src/Libev.antt =====
-- libev/demo1_echo_server.cpp and demo1_echo_client.cpp: callbacks on an event loop. The library
-- libev and the C library are known by their documented calls: an address that malloc gives holds
-- no live block, and the loop calls back for started watchers only.
pub mod Memory
pub mod Server
pub mod Sound
pub mod Accept
pub mod Handlers
pub mod Run
pub mod Service
pub mod Client
pub mod Transcript
pub mod Passing
pub mod Relay
pub mod Together
mod Tests
