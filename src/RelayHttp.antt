-- ===== src/RelayHttp.antt =====
-- relay_http.c: the relay over HTTP/1. Types is its state, Pool the relays that wait for another
-- request and the making and freeing of relays, Request what is written to the server, Response the
-- hooks of the parser and the callback of the connection.
pub mod Types
pub mod Pool
pub mod Request
pub mod Response
mod Tests
