-- ===== src/RelayHttp2/Response/Frames.antt =====
-- relay_http2.c: what the frames and the data of a stream make of the relay.
use h2_client_proxy.Base.{
  some, ℕ, ◌+◌, ◌==◌, ◌&&◌, not, true, false, ◌≡◌, ◌≢◌, ltb, if◌then◌else◌, arith, Bytes,
}
use h2_client_proxy.RelayHttp2.Types.{World, Callback, update, body}
use h2_client_proxy.RelayHttp2.Lifecycle.{window_limit}
use h2_client_proxy.RelayHttp2.Lifecycle.Window.{opened-emit, opened}
use h2_client_proxy.RelayHttp2.Response.{
  session_send, emit, submit_window_update, data_frame, has_flag, relay_on_data_chunk_recv_callback,
  send_updates, relay_session_on_frame_recv_callback, relay_on_message_complete,
}

-- The relay after the client was shown the data.
abbrev pub shown : Callback → Bytes → World → World
shown cb bytes w = cb body (update (λ r. record r { body_data = bytes }) w)

-- The window of stream `k` after `send_updates`, where `k` is the stream or 0.
send_updates-opened :
    (id n m k : ℕ) (w : World)
    → opened k (send_updates id n m w).calls
      ≡ opened k w.calls
        + (if not w.relay.is_response_read_suspend && ltb window_limit n
            then (if id == k then n else 0)
            else 0)
        + (if ltb window_limit m then (if 0 == k then m else 0) else 0)
unfolding send_updates
send_updates-opened id n m k w =
    let stream = submit_window_update id n in
    let session = submit_window_update 0 m in
    ground (
      arith,
      opened-emit k stream w,
      opened-emit k session w,
      opened-emit k session (emit stream w),
      opened-emit k session_send (emit stream w),
      opened-emit k session_send (emit session w),
      opened-emit k session_send (emit session (emit stream w)),
    )

-- On data for an attached relay, the window of its stream, whose id is not 0, opens by the number
-- that nghttp2 reports for the stream, if this is more than 30000 and the client, after it was
-- shown the data, has not suspended reading; the window of the session opens by the number
-- reported for the session if this is more than 30000, suspended or not.
pub relay_on_data_chunk_recv_callback-opened :
    (cb : Callback) (id n m : ℕ) (bytes : Bytes) (w : World)
    → w.relay.is_attached ≡ true
    → id ≢ 0
    → let shown_w = shown cb bytes w in
      let w' = relay_on_data_chunk_recv_callback cb id n m bytes w in
      (opened id w'.calls
        ≡ opened id shown_w.calls
          + (if not shown_w.relay.is_response_read_suspend && ltb window_limit n then n else 0))
      × (opened 0 w'.calls ≡ opened 0 shown_w.calls + (if ltb window_limit m then m else 0))
unfolding relay_on_data_chunk_recv_callback
relay_on_data_chunk_recv_callback-opened cb id n m bytes w a ne = ground (
  arith,
  send_updates-opened id n m id (shown cb bytes w),
  send_updates-opened id n m 0 (shown cb bytes w),
)

-- A DATA frame with any flag at all, for instance one that is padded but does not end the stream,
-- completes the message: the client is told so with the status set to complete.
pub data_frame_completes :
    (cb : Callback) (flags : ℕ) (w : World)
    → w.relay.is_attached ≡ true
    → flags ≢ 0
    → has_flag flags 0 ≡ false
    → relay_session_on_frame_recv_callback cb (data_frame flags) w
      ≡ some (relay_on_message_complete cb w)
unfolding relay_session_on_frame_recv_callback
data_frame_completes cb flags w a ne e = ground arith
