-- ===== src/Client.antt =====
-- client.c: the connection of a client. `Types` is its state, `Output` the bytes sent to the client,
-- `Response` the events of the relay and `Request` the callbacks of the HTTP parser.
pub mod Types
pub mod Output
pub mod Response
pub mod Request
mod Tests
