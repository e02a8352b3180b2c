-- ===== src/RelayHttp2.antt =====
-- relay_http2.c: a relay that carries a request over a stream of the HTTP/2 tunnel. The state of a
-- relay and the calls that it makes of nghttp2 and of the timers are in `Types`; `Body` is the
-- request body, `Request` the request, `Response` what arrives from the tunnel, `Lifecycle`
-- the making, connecting and freeing of a relay.
pub mod Types
pub mod Body
pub mod Request
pub mod Response
pub mod Lifecycle
pub mod Tunnel
mod Tests
