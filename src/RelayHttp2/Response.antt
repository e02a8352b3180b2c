-- ===== src/RelayHttp2/Response.antt =====
-- relay_http2.c: what arrives on a stream: the header block, the frames and the data of a response.
pub mod Length
pub mod Frames
use h2_client_proxy.Base.{
  ℕ, ◌+◌, ◌*◌, ◌-◌, ◌/◌, ◌%◌, ◌^◌, ◌==◌, ◌&&◌, ◌||◌, not, Bool, true, false, Option, none, some,
  List, [], ◌∷◌, ltb, leb, if◌then◌else◌, Bytes, codes, str_case_eq, take, c_str,
}
use h2_client_proxy.Header.{Header, header_value, header_add_pair, header_set_status_code}
use h2_client_proxy.RelayHttp2.Types.{
  Http2Relay, World, Call, RelayEvent, Callback, emit, update, header_complete, body, msg_complete,
  err_conn_failed, submit_window_update, session_send, status_msg_complete, status_header_complete,
}
use h2_client_proxy.RelayHttp2.Lifecycle.{relay_free, window_limit}

abbrev pub is_set : Option Bytes → Bool
is_set none = false
is_set (some v) = true

-- The connection header of the response, by its status.
with_connection : Header → Header
with_connection h =
    if is_set (header_value h (codes "proxy-connection"))
    then h
    else if ltb h.status_code 500
    then header_add_pair h (codes "proxy-connection") (codes "keep-alive")
    else header_add_pair h (codes "proxy-connection") (codes "close")

-- The response header after `relay_check_length_info`, and `has_length_info`.
unfoldable pub check_length_info : Header → Bool → Header × Bool
unfolding with_connection
check_length_info h old =
    let content_length = is_set (header_value h (codes "content-length")) in
    let chunked = is_set (header_value h (codes "Transfer-Encoding")) in
    let h' = with_connection h in
    if ltb 400 h.status_code
    then (h', old)
    else if content_length || chunked
    then (h', true)
    else (header_add_pair h' (codes "Transfer-Encoding") (codes "chunked"), false)

unfoldable pub relay_check_length_info : World → World
relay_check_length_info w =
    let (h, has) = check_length_info w.relay.response_header w.relay.has_length_info in
    update (λ r. record r { response_header = h; has_length_info = has }) w

-- `atoi` of a text that begins with its digits, as a status does.
digits : Bytes → ℕ → ℕ
digits [] n = n
digits (c ∷ cs) n =
    let more = digits cs (n * 10 + (c - b'0')) in if leb b'0' c && leb c b'9' then more else n

unfoldable pub atoi : Bytes → ℕ
unfolding digits
atoi s = digits s 0

-- On a field of a HEADERS frame of the category NGHTTP2_HCAT_RESPONSE whose stream has a relay;
-- on any other the callback does nothing.
unfoldable pub relay_on_header_callback : Bytes → Bytes → World → World
unfolding atoi
relay_on_header_callback name value w =
    let sz_field = take 1024 (c_str name) in
    let sz_value = take 4096 (c_str value) in
    update
      (λ r. record r {
        response_header =
            if str_case_eq sz_field (codes ":status")
            then header_set_status_code r.response_header (atoi sz_value)
            else header_add_pair r.response_header sz_field sz_value;
      })
      w

-- A received frame: its type and flags.
pub data Frame : Type 0 where
  data_frame headers_frame : ℕ → Frame
  rst_stream window_update other_frame : Frame

-- `flags & 2 ^ k`
abbrev pub has_flag : ℕ → ℕ → Bool
has_flag flags k = flags / 2 ^ k % 2 == 1

unfoldable pub relay_on_message_complete : Callback → World → World
relay_on_message_complete cb w =
    cb msg_complete (update (λ r. record r { relay_status = status_msg_complete }) w)

unfoldable pub relay_on_response_header_complete : Callback → World → World
relay_on_response_header_complete cb w =
    cb header_complete (update (λ r. record r { relay_status = status_header_complete }) w)

-- `strcasecmp(relay->request_header->method, "connect") == 0`
is_connect : Option Header → Bool
is_connect none = false
is_connect (some h) = str_case_eq h.method (codes "connect")

-- END_STREAM is the bit 0 and END_HEADERS the bit 2 of the flags.
on_headers : Callback → ℕ → World → World
unfolding is_connect
on_headers cb flags w =
    let is_end_stream = has_flag flags 0 in
    let w1 =
      if has_flag flags 2
      then relay_on_response_header_complete cb (
          if not is_end_stream && not (is_connect w.relay.request_header)
          then relay_check_length_info w
          else w)
      else w in
    if is_end_stream then relay_on_message_complete cb w1 else w1

-- For a relay that is attached. `flags && NGHTTP2_FLAG_END_STREAM` holds for any flag.
on_frame : Callback → Frame → World → Option World
unfolding on_headers
on_frame cb (data_frame flags) w = some (if flags == 0 then w else relay_on_message_complete cb w)
on_frame cb (headers_frame flags) w = some (on_headers cb flags w)
on_frame cb rst_stream w = relay_free (cb err_conn_failed w)
on_frame cb _ w = some w

unfoldable pub relay_session_on_frame_recv_callback : Callback → Frame → World → Option World
unfolding on_frame
relay_session_on_frame_recv_callback cb frame w =
    if w.relay.is_attached then on_frame cb frame w else some w

unfoldable pub relay_on_stream_close_callback : World → Option World
relay_on_stream_close_callback w = relay_free w

-- The window update of the stream, unless the client has suspended reading, and that of the
-- session. The two numbers are what nghttp2 reports: the bytes received on the stream since the
-- last update, and the size of the session's local window.
send_updates : ℕ → ℕ → ℕ → World → World
send_updates stream_id local_window_len session_window_len w =
    let stream = not w.relay.is_response_read_suspend && ltb window_limit local_window_len in
    let session = ltb window_limit session_window_len in
    let w1 = if stream then emit (submit_window_update stream_id local_window_len) w else w in
    let w2 = if session then emit (submit_window_update 0 session_window_len) w1 else w1 in
    if stream || session then emit session_send w2 else w2

unfoldable pub relay_on_data_chunk_recv_callback : Callback → ℕ → ℕ → ℕ → Bytes → World → World
unfolding send_updates
relay_on_data_chunk_recv_callback cb stream_id local_window_len session_window_len bytes w =
    if w.relay.is_attached
    then send_updates stream_id local_window_len session_window_len
        (cb body (update (λ r. record r { body_data = bytes }) w))
    else w
