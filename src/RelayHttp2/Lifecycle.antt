-- ===== src/RelayHttp2/Lifecycle.antt =====
-- relay_http2.c: the making of a relay, the report that the tunnel is up, flow control by the
-- client, and the end of a relay.
pub mod Window
use h2_client_proxy.Base.{
  ℕ, ◌&&◌, Bool, true, false, Option, none, some, List, [], ◌∷◌, ltb, if◌then◌else◌, Bytes,
}
use h2_client_proxy.Header.{header_new}
use h2_client_proxy.RelayHttp2.Types.{
  Http2Relay, World, Call, RelayEvent, Callback, emit, update, connected, err_conn_failed,
  submit_window_update, session_send, submit_rst_stream, set_user_data, timer_add, timer_del,
  timer_free, status_connecting,
}

-- NGHTTP2_INITIAL_WINDOW_SIZE
abbrev pub initial_window_size : ℕ
initial_window_size = 65535

-- `calloc` and the fields that are set, with whether `s_session` is; the timer fires at once.
unfoldable pub relay_create : Bool → World
relay_create s_session = record {
  relay = record {
    session = s_session;
    request_header = none;
    response_header = header_new;
    tmr_connectd = true;
    body_data = [];
    stream_id = 0;
    has_length_info = false;
    is_request_complete = false;
    is_response_read_suspend = false;
    is_attached = true;
    list_write_buf = [];
    relay_status = status_connecting;
    local_window_size = initial_window_size;
    is_listed = true;
    is_freed = false;
  };
  calls = timer_add ∷ [];
}

-- The timer's callback, where `s_session` is set or NULL.
unfoldable pub relay_tmrcb : Callback → Bool → World → World
relay_tmrcb cb s_session w = if s_session then cb connected w else cb err_conn_failed w

-- A NULL session is a crash.
unfoldable pub relay_close : World → Option World
relay_close w =
    if w.relay.session
    then some (
        update (λ r. record r { is_attached = false })
          (emit session_send (emit (submit_rst_stream w.relay.stream_id) w)))
    else none

free_timer : World → World
free_timer w =
    if w.relay.tmr_connectd
    then update (λ r. record r { tmr_connectd = false }) (emit timer_free (emit timer_del w))
    else w

-- `relay_free` where the session is set.
unfoldable pub freed : World → World
unfolding free_timer
freed w =
    update (λ r. record r { is_freed = true })
      (free_timer (
        update (λ r. record r { is_listed = false })
          (emit (set_user_data w.relay.stream_id false) w)))

-- A NULL session is a crash.
unfoldable pub relay_free : World → Option World
unfolding freed
relay_free w = if w.relay.session then some (freed w) else none

unfoldable pub relay_get_status : World → ℕ
relay_get_status w = w.relay.relay_status

unfoldable pub relay_suspend_read : World → World
relay_suspend_read w = update (λ r. record r { is_response_read_suspend = true }) w

-- The window updates are sent for more than 30000 bytes only.
abbrev pub window_limit : ℕ
window_limit = 30000

-- With the bytes that nghttp2 says were received on the stream since the last window update. A NULL
-- session is a crash.
unfoldable pub relay_resume_read : ℕ → World → Option World
relay_resume_read local_window_len w =
    if w.relay.session
    then some (
        update (λ r. record r { is_response_read_suspend = false })
          (if w.relay.is_response_read_suspend && ltb window_limit local_window_len
            then emit session_send
                (emit (submit_window_update w.relay.stream_id local_window_len) w)
            else w))
    else none
