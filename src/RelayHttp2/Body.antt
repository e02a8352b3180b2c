-- ===== src/RelayHttp2/Body.antt =====
-- relay_http2.c: the request body. The client appends buffers; nghttp2 pulls bytes out of them by
-- the read callback of the data provider. `nghttp2_session_send` is recorded only: the pulls that it
-- makes are steps of their own.
pub mod Copy
pub mod Stream
pub mod Drained
use h2_client_proxy.Base.{
  ℕ, ◌+◌, ◌-◌, ◌==◌, ◌&&◌, not, Bool, true, false, Option, none, some, List, [], ◌∷◌, ◌++◌, ltb,
  leb, if◌then◌else◌, length, Bytes,
}
use h2_client_proxy.EpBuffer.{EpBuffer, ep_buffer_create, slice}
use h2_client_proxy.RelayHttp2.Types.{
  Http2Relay, World, Call, emit, update, resume_data, session_send, status_request_sent,
}

-- `list_empty`
abbrev pub is_empty : List EpBuffer → Bool
is_empty [] = true
is_empty (b ∷ bs) = false

-- The loop of `relay_data_source_read_callback`: the bytes copied to `buf`, `total_cpy`, and the
-- list left. A buffer that is sent to its end is taken out, any other ends the loop.
copy_loop : List EpBuffer → Bytes → ℕ → ℕ → Bytes × ℕ × List EpBuffer
copy_loop [] out total_cpy len = (out, total_cpy, [])
copy_loop (pos ∷ rest) out total_cpy len =
    let len_left = len - total_cpy in
    let len_avalible = pos.len_total - pos.len_sent in
    let len_cpy = if ltb len_left len_avalible then len_left else len_avalible in
    let pos' = record pos { len_sent = pos.len_sent + len_cpy } in
    let next = copy_loop rest (out ++ slice pos len_cpy) (total_cpy + len_cpy) len in
    if pos.len_sent + len_cpy == pos.len_total
    then next
    else (out ++ slice pos len_cpy, total_cpy + len_cpy, pos' ∷ rest)

-- What the read callback returns: a number of bytes, the end of the body
-- (NGHTTP2_DATA_FLAG_EOF and 0), or NGHTTP2_ERR_DEFERRED.
pub data ReadResult : Type 0 where
  sent : ℕ → ReadResult
  eof deferred : ReadResult

unfoldable pub relay_data_source_read_callback : Http2Relay → ℕ → ReadResult × Bytes × Http2Relay
unfolding copy_loop
relay_data_source_read_callback relay len =
    let (out, total_cpy, left) = copy_loop relay.list_write_buf [] 0 len in
    let relay' = record relay { list_write_buf = left } in
    (
      if total_cpy == 0
          then (if relay.is_request_complete && is_empty left then eof else deferred)
          else sent total_cpy,
      out,
      relay',
    )

-- `ep_buffer_create` fails on no bytes. The window of a NULL session is a crash.
unfoldable pub relay_write_body : Bytes → World → Option World
relay_write_body bytes w = elim (ep_buffer_create bytes) [
  | none ↦ none
  | some write_buf ↦
      let w' = update (λ r. record r { list_write_buf = r.list_write_buf ++ write_buf ∷ [] }) w in
      if not w'.relay.session
      then none
      else if leb status_request_sent w'.relay.relay_status
      then some (emit session_send (emit (resume_data w'.relay.stream_id) w'))
      else some w'
]

unfoldable pub relay_complete_request : World → World
relay_complete_request w = update (λ r. record r { is_request_complete = true }) w
