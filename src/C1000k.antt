-- ===== src/C1000k.antt =====
-- network/demo4_c1000k_server.cpp: the reactor that keeps an item for each client socket in a list
-- of blocks, and the server on it; and the client of demo4_c1000k_client.cpp.
pub mod Reactor
pub mod Lookup
pub mod Server
pub mod Items
pub mod Service
pub mod Client
pub mod Text
pub mod Bounded
pub mod Rounds
mod Tests
