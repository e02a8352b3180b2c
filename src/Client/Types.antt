-- ===== src/Client/Types.antt =====
-- client.c: `struct client`, the calls that it makes of the relay, and `client_drop`.
use h2_client_proxy.Base.{ℕ, Bool, true, false, Option, none, some, List, [], ◌∷◌, ◌++◌, Bytes}
use h2_client_proxy.Base.Int.{pos, negsuc}
use h2_client_proxy.Ep.Types.{no_events, ep_read}
use h2_client_proxy.Ep.Watch.{Watch, watch_new, detect}
use h2_client_proxy.EpBuffer.{EpBuffer}
use h2_client_proxy.Header.{Header}

-- The calls through `relay_sys`, on the client's relay.
pub data RelayCall : Type 0 where
  relay_create : Bytes → ℕ → RelayCall
  relay_send_request : Option Header → RelayCall
  relay_write_body : Bytes → RelayCall
  relay_close relay_suspend_read relay_resume_read relay_complete_request : RelayCall

-- `struct client`. A relay is known by its address. `client_write_buffer` has the fields of
-- `ep_buffer`. `sent` is what the kernel took of the response, `calls` the calls of the relay in
-- order, and `is_dropped` whether the client was closed and freed.
pub record Client : Type 0 where
  pub file : Watch
  pub relay : Option ℕ
  pub request_header : Option Header
  pub pending_request_header : Option Header
  pub list_response_write_buffer : List EpBuffer
  pub list_request_body_buffer : List EpBuffer
  pub pending_write : ℕ
  pub sent : Bytes
  pub calls : List RelayCall
  pub is_dropped : Bool

-- The client that `client_handle_fd` makes: reading is watched for 30 seconds.
unfoldable pub client_handle_fd : Client
unfolding detect
client_handle_fd = record {
  file = detect ep_read (pos 30000) watch_new;
  relay = none;
  request_header = none;
  pending_request_header = none;
  list_response_write_buffer = [];
  list_request_body_buffer = [];
  pending_write = 0;
  sent = [];
  calls = [];
  is_dropped = false;
}

abbrev pub record_call : RelayCall → Client → Client
record_call call c = record c { calls = c.calls ++ call ∷ [] }

-- A call on the client's relay: every such call of relay_http2.c and relay_http.c reads through the
-- pointer, so that NULL is a crash, `none`.
abbrev pub call_relay : RelayCall → Client → Option Client
call_relay call c = elim c.relay [ none ↦ none | some _ ↦ some (record_call call c) ]

-- `if(client->relay)`
abbrev close_relay : Client → Client
close_relay c = elim c.relay [ none ↦ c | some _ ↦ record_call relay_close c ]

unfoldable pub client_drop : Client → Client
client_drop c = record (close_relay c) {
  file = detect no_events (negsuc 0) c.file;
  request_header = none;
  pending_request_header = none;
  list_response_write_buffer = [];
  is_dropped = true;
}
