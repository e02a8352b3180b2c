-- ===== src/RelayHttp2/Tests.antt =====
-- Runs of the functions of relay_http2.c on small relays and headers.
use h2_client_proxy.Base.{
  ℕ, Option, ◌↔◌, c_str, str_case_eq, replicate, ◌≡◌, refl, List, [], ◌∷◌, ◌++◌, arith, Bytes,
  codes, some, none, true, false,
}
use h2_client_proxy.Header.{header_add_pair, header_value, Header, header_new}
use h2_client_proxy.EpBuffer.{EpBuffer}
use h2_client_proxy.EpBuffer.Stream.{pending}
use h2_client_proxy.Conn.{tcp_conn_eventcb}
use h2_client_proxy.RelayHttp2.Tunnel.{Tunnel, relay_sys_init, relay_tunnel_eventcb}
use h2_client_proxy.RelayHttp2.Tunnel.Loss.{
  AllFreed, lost, dropped_relay, relay_tunnel_eventcb-drops,
}
use h2_client_proxy.RelayHttp2.Tunnel.Sends.{send_all, AllWhole, send_all-exact}
use h2_client_proxy.RelayHttp2.Types.{World, Callback, Http2Relay, err_conn_failed}
use h2_client_proxy.RelayHttp2.Lifecycle.{relay_create, relay_suspend_read, relay_resume_read}
use h2_client_proxy.RelayHttp2.Lifecycle.Window.{opened, relay_resume_read-opened}
use h2_client_proxy.RelayHttp2.Body.{relay_data_source_read_callback, sent, deferred}
use h2_client_proxy.RelayHttp2.Body.Drained.{pull_all, pull_all-pending}
use h2_client_proxy.RelayHttp2.Body.Copy.{
  relay_data_source_read_callback-pending, relay_data_source_read_callback-result,
}
use h2_client_proxy.RelayHttp2.Body.Stream.{BodyStep, write, pull, run_body, run_body-stream}
use h2_client_proxy.RelayHttp2.Request.{
  request_authority, is_skipped, request_path, ParsedUrl, request_nvs, field_nvs,
}
use h2_client_proxy.RelayHttp2.Request.Nvs.{find_nv, find_nv-field_nvs}
use h2_client_proxy.RelayHttp2.Response.{
  relay_on_message_complete, data_frame, relay_session_on_frame_recv_callback,
  relay_on_data_chunk_recv_callback, check_length_info, is_set,
}
use h2_client_proxy.RelayHttp2.Response.Length.{
  check_length_info-proxy_connection, check_length_info-length, check_length_info-keeps,
}
use h2_client_proxy.RelayHttp2.Response.Frames.{
  relay_on_data_chunk_recv_callback-opened, data_frame_completes,
}

abbrev first : EpBuffer
first = record { buf = 1 ∷ 2 ∷ 3 ∷ []; len_total = 3; len_sent = 1 }

-- A relay with a part of a body.
abbrev sending : World
sending = record (relay_create true) {
  relay = record (relay_create true).relay { list_write_buf = first ∷ [] };
}

relay_data_source_read_callback-pending_example :
    (relay_data_source_read_callback sending.relay 1).1 ≡ 2 ∷ []
relay_data_source_read_callback-pending_example =
    (relay_data_source_read_callback-pending sending.relay 1 (omega arith)).0

relay_data_source_read_callback-result_example :
    (relay_data_source_read_callback sending.relay 1).0 ≡ sent 1
relay_data_source_read_callback-result_example =
    relay_data_source_read_callback-result sending.relay 1 (omega arith) (omega arith)

abbrev steps : List BodyStep
steps = pull 1 ∷ write (4 ∷ 5 ∷ []) ∷ pull 2 ∷ []

run_body-stream_example :
    (out : Bytes) × (w : World) × (run_body steps sending ≡ some (out, w))
    × (out ++ pending w.relay.list_write_buf ≡ 2 ∷ 3 ∷ 4 ∷ 5 ∷ [])
unfolding relay_create
run_body-stream_example = run_body-stream steps sending refl (omega arith) (tt, (λ e. cc, (tt, tt)))

relay_resume_read-opened_example :
    (w : World) × (relay_resume_read 30001 (relay_suspend_read (relay_create true)) ≡ some w)
    × (opened 0 w.calls ≡ 30001)
    × (w.relay.is_response_read_suspend ≡ false)
unfolding relay_create
relay_resume_read-opened_example = relay_resume_read-opened 30001 (relay_create true) refl

-- A client that suspends reading whenever it is shown data.
abbrev suspending : Callback
suspending event w = relay_suspend_read w

relay_on_data_chunk_recv_callback-opened_example :
    opened 1
      (relay_on_data_chunk_recv_callback suspending 1 40000 40000
        (7 ∷ [])
        (relay_create true)).calls
    ≡ 0
unfolding relay_create relay_suspend_read
relay_on_data_chunk_recv_callback-opened_example =
    (relay_on_data_chunk_recv_callback-opened suspending 1 40000 40000 (7 ∷ []) (relay_create true)
      refl (omega arith)).0

-- A padded frame (flag 8) that does not end the stream.
data_frame_completes_example :
    relay_session_on_frame_recv_callback suspending (data_frame 8) (relay_create true)
    ≡ some (relay_on_message_complete suspending (relay_create true))
unfolding relay_create
data_frame_completes_example =
    data_frame_completes suspending 8 (relay_create true) refl (omega arith) refl

abbrev response : Header
response = record header_new {
  status_code = 200;
  list_headers = record { field = codes "Server"; value = codes "x" } ∷ [];
}

check_length_info-proxy_connection_example :
    is_set (header_value (check_length_info response false).0 (codes "proxy-connection")) ≡ true
check_length_info-proxy_connection_example = check_length_info-proxy_connection response false

check_length_info-length_example : (check_length_info response true).1 ≡ false
unfolding header_value header_new str_case_eq
check_length_info-length_example = (check_length_info-length response true (omega arith)).1

check_length_info-keeps_example :
    header_value (check_length_info response false).0 (codes "server")
    ≡ header_value response (codes "server")
unfolding str_case_eq
check_length_info-keeps_example = check_length_info-keeps response false (codes "server") refl refl

check_length_info_run :
    header_value (check_length_info response true).0 (codes "transfer-encoding")
    ≡ some (codes "chunked")
unfolding header_value header_new str_case_eq check_length_info header_add_pair c_str
check_length_info_run = refl

abbrev request : Header
request = record header_new {
  method = codes "GET";
  list_headers =
      record { field = codes "Accept"; value = codes "*/*" }
      ∷ record { field = codes "CONNECTION"; value = codes "close" }
      ∷ [];
}

find_nv-field_nvs_example : find_nv (field_nvs request.list_headers) (codes "connection") ≡ none
unfolding str_case_eq is_skipped
find_nv-field_nvs_example = find_nv-field_nvs request (codes "connection")

abbrev no_url : ParsedUrl
no_url = record {
  schema = none;
  host = none;
  port_text = none;
  path = none;
  query = none;
  fragment = none;
  port = 0;
}

abbrev many_fields : Header
many_fields = record request {
  list_headers = replicate 97 (record { field = codes "Accept"; value = codes "*/*" });
}

request_nvs_run :
    request_nvs request (codes "/") no_url
    ≡ record { name = codes ":method"; value = codes "GET" }
      ∷ record { name = codes ":path"; value = codes "/" }
      ∷ record { name = codes ":scheme"; value = codes "http" }
      ∷ record { name = codes ":authority"; value = [] }
      ∷ record { name = codes "Accept"; value = codes "*/*" }
      ∷ []
unfolding request_nvs request_path request_authority header_value field_nvs is_skipped str_case_eq
request_nvs_run = refl

-- A tunnel that is connected, with one relay.
abbrev in_use : Tunnel
in_use = record relay_sys_init { session = true; relays = relay_create true ∷ [] }

suspending-session : (w : World) → (suspending err_conn_failed w).relay.session ≡ w.relay.session
unfolding relay_suspend_read
suspending-session w = refl

-- EP_WRITE and EP_ERROR, as for a connection that is reset.
relay_tunnel_eventcb-drops_example :
    let t' = lost suspending suspending-session in_use in
    (relay_tunnel_eventcb suspending (tcp_conn_eventcb 10) [] in_use ≡ some t')
    × (t'.conn.is_closed ≡ true)
    × AllFreed (dropped_relay suspending (relay_create true) ∷ [])
unfolding relay_create
relay_tunnel_eventcb-drops_example =
    relay_tunnel_eventcb-drops suspending suspending-session 10 [] in_use refl

-- A relay that was made before the tunnel was connected, which is refused.
abbrev too_early : Tunnel
too_early = record relay_sys_init { relays = relay_create false ∷ [] }

refused_crashes : relay_tunnel_eventcb suspending (tcp_conn_eventcb 10) [] too_early ≡ none
unfolding relay_create
refused_crashes = (relay_tunnel_eventcb-drops suspending suspending-session 10 [] too_early refl).0

-- A frame of which the system takes the first byte only, and another one.
abbrev short_sends : List (Bytes × Option ℕ)
short_sends = (1 ∷ 2 ∷ [], some 1) ∷ (3 ∷ [], some 1) ∷ []

send_all-exact_example :
    ((send_all short_sends []).1 ≡ 3)
    × (((send_all short_sends []).0 ≡ 1 ∷ 2 ∷ 3 ∷ []) ↔ AllWhole short_sends)
send_all-exact_example = send_all-exact short_sends []

-- nghttp2 asks for two bytes each time.
abbrev two_bytes : ℕ → ℕ
two_bytes k = 2

pull_all-pending_example :
    (after : Http2Relay) × (pull_all two_bytes 5 0 sending.relay
      ≡ some (2 ∷ 3 ∷ [], deferred, after))
    × (pending after.list_write_buf ≡ [])
unfolding relay_create
pull_all-pending_example =
    pull_all-pending two_bytes (λ k. omega arith) 5 sending.relay (omega arith, tt) (omega arith)
