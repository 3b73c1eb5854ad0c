-- ===== src/Dns.antt =====
-- network/dns: the DNS clients, from the query that is sent to the answers that are parsed.
pub mod Query
pub mod Name
pub mod Response
pub mod Async
pub mod Main
pub mod Sync
mod Tests
