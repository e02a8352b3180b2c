-- ===== src/RelayHttp2/Types.antt =====
-- relay_http2.c and relay.h: `struct http2_relay`, the relay's events and status values, and the
-- calls of nghttp2 and of the event loop in the order in which they are made.
use h2_client_proxy.Base.{ℕ, Bool, Option, List, [], ◌∷◌, ◌++◌, Bytes}
use h2_client_proxy.EpBuffer.{EpBuffer}
use h2_client_proxy.Header.{Header}

-- The events of relay.h.
pub data RelayEvent : Type 0 where
  connected header_complete body msg_complete : RelayEvent
  err_dns_failed err_conn_failed err_response_parse_failed err_conn_terminate : RelayEvent

-- The status values of relay.h are compared by `<`.
abbrev pub status_connecting : ℕ
status_connecting = 0

abbrev pub status_connected : ℕ
status_connected = 1

abbrev pub status_request_sent : ℕ
status_request_sent = 2

abbrev pub status_header_complete : ℕ
status_header_complete = 3

abbrev pub status_msg_complete : ℕ
status_msg_complete = 4

-- A name and a value of a header block.
pub record Nv : Type 0 where
  pub name : Bytes
  pub value : Bytes

-- The calls that a relay makes. `submit_window_update` has the stream (0 for the session) and the
-- increment, `submit_request` says whether there is a data provider, and `set_user_data` whether
-- the stream gets the relay or NULL.
pub data Call : Type 0 where
  submit_window_update : ℕ → ℕ → Call
  session_send : Call
  resume_data : ℕ → Call
  submit_rst_stream : ℕ → Call
  set_user_data : ℕ → Bool → Call
  submit_request : List Nv → Bool → Call
  timer_add timer_del timer_free : Call

-- `session` is whether the pointer is set: it is what `s_session` was when the relay was made, NULL
-- before the tunnel is connected, and never changed. `tmr_connectd` is whether the pointer is set, `is_listed` whether the relay is in
-- `s_list_relays`, and `is_freed` whether `free` was called.
pub record Http2Relay : Type 0 where
  pub session : Bool
  pub request_header : Option Header
  pub response_header : Header
  pub tmr_connectd : Bool
  pub body_data : Bytes
  pub stream_id : ℕ
  pub has_length_info : Bool
  pub is_request_complete : Bool
  pub is_response_read_suspend : Bool
  pub is_attached : Bool
  pub list_write_buf : List EpBuffer
  pub relay_status : ℕ
  pub local_window_size : ℕ
  pub is_listed : Bool
  pub is_freed : Bool

-- A relay with the calls made so far. The client's callback `relay->cb` may use the relay's
-- operations, so it is a function on this state, one that does not crash, and a parameter of what calls it.
pub record World : Type 0 where
  pub relay : Http2Relay
  pub calls : List Call

abbrev pub emit : Call → World → World
emit c w = record w { calls = w.calls ++ c ∷ [] }

abbrev pub update : (Http2Relay → Http2Relay) → World → World
update f w = record w { relay = f w.relay }

abbrev pub Callback : Type 0
Callback = RelayEvent → World → World
