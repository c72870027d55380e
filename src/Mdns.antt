-- ===== src/Mdns.antt =====
-- internal/mdns: names, queries and answers of multicast DNS.
pub mod Names
pub mod Packets
pub mod Resolver
pub mod Responder
mod Tests
