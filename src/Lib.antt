-- ===== src/Lib.antt =====
-- The h2_client_proxy: an HTTP proxy that passes the requests of its clients on over one HTTP/2
-- connection, the tunnel, to another proxy.
--
-- The program is one event loop. `ep.c` holds the descriptors that are watched, over
-- `ep_poll_epoll.c`, and the timers. `client.c` has a client per connection: http_parser calls it
-- back with the pieces of a request, which `header.c` puts together; it makes a relay for each
-- request, buffers the body until the relay is connected, and writes the response that the relay
-- reports back to the client, suspending the relay when too much waits. `relay_http2.c` has a relay
-- per request: it makes the header block, hands the body to nghttp2 when asked, and turns the
-- frames of the response into events for the client. `ep_buf_tcp.c` is a connection with a queue of
-- `ep_buffer.c`, `conn_tcp.c` the connection of the tunnel, and `util.c` has the formatting and the
-- status lines.
-- `dns.c` resolves the name of a server: users that ask for the same host share one query, an answer
-- goes to all of them and into a cache, and a timer is set to send the query again. `relay_http.c`
-- is the other implementation of a relay, over HTTP/1: it has a connection to the server, found by
-- `dns.c`, and keeps it for the next request. `server.c` starts all of them and makes a client of each
-- connection that it accepts. `http_downstream.c` is another form of a client, of which the events
-- are there and the responses are not; nothing calls it.
--
-- Files and code:
--   Base         natural and signed numbers, lists over them, C strings as lists of bytes
--   Util         `util.c`: append_format, get_status_string
--   Header       `header.c`: struct header and its operations
--   EpBuffer     `ep_buffer.c`: struct ep_buffer, ep_buffer_create, ep_buffer_read
--   Ep           `ep.c`: Types the state, Timer the timers, File the descriptors, Watch one
--                descriptor as its owner sees it, Loop the rounds of the event loop, Poll the
--                calls of `ep_poll_epoll.c` and the events that it makes of what epoll reports
--   EpBuf        `ep_buf_tcp.c`: the operations of ep_buf_proto_tcp and the callback of the file
--   RelayHttp    `relay_http.c`: Types the state, Pool the relays that wait with relay_create and
--                relay_free, Request what is written, Response the hooks of the parser and the
--                callbacks
--   Dns          `dns.c`: Types the state, Name and Message the packets, Cache, and Requests with
--                dns_resolve, dns_recv_cb, dns_cancel and the timers
--   Conn         `conn_tcp.c`: the events and masks of the connection below the tunnel
--   RelayHttp2   `relay_http2.c`: Types, Tunnel (the connection to the other proxy), Lifecycle
--                (create, close, suspend, resume), Body, Request (relay_send_request) and Response
--                (the callbacks of nghttp2)
--   Client       `client.c`: Types, Output (client_write, client_writecb), Response (the callback of
--                the relay) and Request (the hooks of the parser, client_eventcb)
--   RelaySys     `relay.h`: the table of a relay as an interface with laws, with http_relay_sys and
--                http2_relay_sys, which keep them, and a client over any table that does
--   Downstream   `http_downstream.c`: Types the state; the queue of events, the hooks of the parser,
--                the accepting of a connection and http_downstream_init
--   Server       `server.c`: server_start with what it starts, readcb, and of `util.c`
--                server_create_listen_fd
-- A function keeps its name in C and returns the new state of what it changes. A failed assertion
-- and a read through NULL are `none`. The files below a component have its lemmas and theorems, the
-- file Tests its runs on concrete input.
--
-- Bounds and fuel: the digits of `%X` have eight rounds for the eight digits of an int, those of a
-- byte three. decode_enc_str follows pointers and runs on fuel, a unit for each label, pointer and
-- end; the theorems on it say how much is enough. Its outcome tells a crash from fuel that ran out.
-- The loop of ep_timer_check runs on fuel, since callbacks change the list of timers; where they do
-- not, more fuel than there are timers is enough. The rounds of ep_base_dispatch are the list of what
-- epoll reports. nghttp2 pulls a body with a unit of fuel for each call, and more units than there are
-- bytes are enough. No other loop runs on fuel. Numbers are not bounded, except where a theorem says
-- so: the sizes of the C arrays (a formatted text of append_format, the 50 * 4096 bytes of a response
-- header, the 20 * 1024 of a request over HTTP/1, the 256 of a host, the 1024 descriptors) are hypotheses of the theorems that need them, and what is written past
-- the end of an array is a crash of the function or stated by theorems of its own.
--
-- Parameters: what send, write and read return, the time, the calls that http_parser makes of the
-- bytes received, its parser of URLs, the numbers that nghttp2 reports, and the callback of an owner
-- are arguments, and so are inet_aton and inet_ntoa, as the text that they make. The calls made of
-- epoll, of nghttp2 and of a relay are recorded in order. What epoll reports is an argument, for
-- which some theorems suppose what epoll documents: no more events than there is room for, and only
-- what was asked for. A relay over HTTP/2 has a session or NULL, which crashes what uses it; that
-- nghttp2_session_send pulls a body inside the call is left out, and the bytes stay in the list of the
-- relay until a step of their own pulls them.
--
-- Not modelled: http_parser, nghttp2, libevent and list.h, which are copies of other projects;
-- ep_buf_connect and the making of sockets, which are system calls; dns_fini and the socket of
-- dns_init; the setup of the session in `relay_http2.c`; of `server.c` what comes after the loop
-- returns; and the functions of `http_downstream.c` that are empty. Freeing memory is a flag where it
-- matters and left out elsewhere.
pub mod Base
pub mod Util
pub mod Header
pub mod EpBuffer
pub mod Ep
pub mod EpBuf
pub mod Conn
pub mod Dns
pub mod RelayHttp
pub mod RelayHttp2
pub mod Client
pub mod RelaySys
pub mod Downstream
pub mod Server
