-- ===== src/Dns.antt =====
-- dns.c: the resolver. Types is its state, Name and Message are what stands in the packets, Cache is
-- the answers that are kept, Requests the queries that wait, with the operations of dns.h.
pub mod Types
pub mod Name
pub mod Message
pub mod Cache
pub mod Requests
mod Tests
