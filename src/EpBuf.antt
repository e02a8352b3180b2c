-- ===== src/EpBuf.antt =====
-- ep_buf.h and ep_buf_tcp.c: a connection that buffers what it cannot send at once. What `send`,
-- `write` and `read` return are arguments, and the user's callback, which may use the operations
-- of the buffer, is a function on its state. Children: `Output`, the stream of bytes sent;
-- `Free`, the freeing of a buffer in its own callback.
pub mod Output
pub mod Free
mod Tests
use h2_client_proxy.Base.{
  ℕ, ◌+◌, ◌-◌, ◌&&◌, not, Bool, true, false, Option, none, some, List, [], ◌∷◌, ◌++◌, ltb,
  if◌then◌else◌, length, take, drop, Bytes,
}
use h2_client_proxy.Base.Int.{ℤ, pos, negsuc}
use h2_client_proxy.Ep.Types.{Mask, no_events, ep_read, ep_write, mask_or}
use h2_client_proxy.Ep.Watch.{Watch, watch_new, detect, get_detect, get_timeout}
use h2_client_proxy.EpBuffer.{EpBuffer, ep_buffer_create}

-- The events and interests of ep_buf.h. `detect` holds the bits EP_BUF_READ and EP_BUF_WRITE.
pub data BufEvent : Type 0 where
  buf_read_event buf_write_event buf_error : BufEvent

-- `struct ep_buf_impl`; `read_buf` is `buf_read` with `read_buf_len` (-1 if there is none). `sent`
-- is what the kernel took, and `is_freed` whether the buffer was closed and freed.
pub record EpBuf : Type 0 where
  pub file : Watch
  pub read_buf : Option Bytes
  pub is_incb : Bool
  pub is_free_pending : Bool
  pub list_write_buf : List EpBuffer
  pub detect_mask : Mask
  pub sent : Bytes
  pub is_freed : Bool

abbrev pub Callback : Type 0
Callback = BufEvent → EpBuf → EpBuf

-- A number of bytes, or -1 with an `errno` that only asks to try again, or with another.
pub data SendResult : Type 0 where
  taken : ℕ → SendResult
  again broken : SendResult

unfoldable pub ep_buf_create : EpBuf
ep_buf_create = record {
  file = watch_new;
  read_buf = none;
  is_incb = false;
  is_free_pending = false;
  list_write_buf = [];
  detect_mask = no_events;
  sent = [];
  is_freed = false;
}

abbrev pub ask : Mask → EpBuf → EpBuf
ask what b = record b { file = detect what (get_timeout b.file) b.file }

-- `detect & ~EP_WRITE`
abbrev pub without_write : Mask → Mask
without_write m = record m { write = false }

-- A buffer with the bytes is put at the end, and writing is watched.
queue : Bytes → EpBuf → Option EpBuf
queue bytes b = elim (ep_buffer_create bytes) [
  | none ↦ none
  | some writebuf ↦ some (
      ask (mask_or (get_detect b.file) ep_write)
        (record b { list_write_buf = b.list_write_buf ++ writebuf ∷ [] }))
]

write_now : Bytes → SendResult → EpBuf → Option EpBuf
unfolding queue
write_now bytes (taken n) b =
    let b' = record b { sent = b.sent ++ take n bytes } in
    if ltb n (length bytes) then queue (drop n bytes) b' else some b'
write_now bytes _ b = some b

-- `r` is what `send` returns, if it is called.
unfoldable pub ep_buf_write : Bytes → SendResult → EpBuf → Option EpBuf
unfolding write_now
ep_buf_write bytes r b = elim b.list_write_buf [ [] ↦ write_now bytes r b | _ ∷ _ ↦ queue bytes b ]

unfoldable pub ep_buf_free : EpBuf → EpBuf
ep_buf_free b = if b.is_incb then record b { is_free_pending = true } else record b {
  list_write_buf = [];
  file = detect no_events (negsuc 0) b.file;
  is_freed = true;
}

-- The end of a part of a callback: a buffer that was freed meanwhile is freed now, and -1 returned.
finish : EpBuf → EpBuf × Bool
unfolding ep_buf_free
finish b =
    if b.is_free_pending
    then (ep_buf_free (record b { is_free_pending = false }), false)
    else (b, true)

-- The callback between `is_incb = true` and `is_incb = false`, and what follows.
unfoldable pub call_back : Callback → BufEvent → EpBuf → EpBuf × Bool
unfolding finish
call_back cb event b = finish (record (cb event (record b { is_incb = true })) { is_incb = false })

-- `r` is what `write` returns for the first buffer. The test `pos->len_sent == pos->len_sent` holds,
-- so the buffer is taken out.
unfoldable pub write_first : SendResult → EpBuf → EpBuf × Bool
write_first r b = elim b.list_write_buf [
  | [] ↦ (ask (without_write (get_detect b.file)) b, false)
  | first ∷ rest ↦ elim r [
    | taken n ↦ (
      record b { sent = b.sent ++ take n (drop first.len_sent first.buf); list_write_buf = rest },
      false,
    )
    | again ↦ (b, false)
    | broken ↦ (b, true)
  ]
]

-- The second `if(list_empty(...))`, with the events and the timeout read at the start.
stop_writing : Mask → ℤ → EpBuf → EpBuf × Bool
unfolding finish
stop_writing events timeout b = elim b.list_write_buf [
  | [] ↦ finish (record b { file = detect (without_write events) timeout b.file; is_incb = false })
  | _ ∷ _ ↦ (b, true)
]

report_error : Callback → Bool → EpBuf → EpBuf × Bool
unfolding call_back
report_error cb is_error b =
    if is_error
    then call_back cb buf_error (record b { file = detect no_events (negsuc 0) b.file })
    else (b, true)

report_write : Callback → EpBuf → EpBuf × Bool
unfolding call_back
report_write cb b = if b.detect_mask.write then call_back cb buf_write_event b else (b, true)

-- The state after it, and whether it returns 0.
unfoldable pub ep_buf_file_writecb : Callback → SendResult → EpBuf → EpBuf × Bool
unfolding write_first stop_writing report_error report_write
ep_buf_file_writecb cb r b =
    let (b1, is_error) = write_first r b in
    let (b2, go2) = stop_writing (get_detect b.file) (get_timeout b.file) b1 in
    if not go2
    then (b2, false)
    else let (b3, go3) = report_error cb is_error b2 in
      if not go3 then (b3, false) else report_write cb b3

-- `bytes` is what `read` gives, none if it returns -1.
unfoldable pub ep_buf_file_readcb : Callback → Option Bytes → EpBuf → EpBuf × Bool
unfolding finish
ep_buf_file_readcb cb bytes b =
    let b1 = record b { read_buf = bytes; is_incb = true } in
    let b2 =
      if b1.detect_mask.read then record (cb buf_read_event b1) { is_incb = false } else b1 in
    let (b3, go) = finish b2 in if go then (record b3 { read_buf = none }, true) else (b3, false)

-- The events of a descriptor: EP_READ, EP_WRITE and EP_ERROR.
pub record FileEvents : Type 0 where
  pub events : Mask
  pub error : Bool

unfoldable pub ep_buf_file_eventcb :
    Callback → FileEvents → SendResult → Option Bytes → EpBuf → EpBuf
ep_buf_file_eventcb cb what r bytes b =
    let (b1, go1) = if what.events.write then ep_buf_file_writecb cb r b else (b, true) in
    if not go1
    then b1
    else let (b2, go2) = if what.events.read then ep_buf_file_readcb cb bytes b1 else (b1, true) in
      if go2 && what.error
      then cb buf_error (record b2 { file = detect no_events (negsuc 0) b2.file })
      else b2

-- The assertion that a callback is running.
unfoldable pub ep_buf_read : EpBuf → Option (Option Bytes)
ep_buf_read b = if b.is_incb then some b.read_buf else none

-- `detect |= EP_READ`, or `EP_WRITE` if reading is not asked for.
unfoldable pub ep_buf_enable : Mask → EpBuf → EpBuf
ep_buf_enable what b =
    let events = get_detect b.file in
    let asked =
      if what.read
      then mask_or events ep_read
      else if what.write
      then mask_or events ep_write
      else events in
    record (ask asked b) { detect_mask = what }

-- `detect &= (!EP_READ)` and `detect &= (!EP_WRITE)`: `!` of a bit is 0.
unfoldable pub ep_buf_disable : Mask → EpBuf → EpBuf
ep_buf_disable what b =
    let events = get_detect b.file in
    let asked = if what.read then no_events else if what.write then no_events else events in
    record (ask asked b) { detect_mask = what }

unfoldable pub ep_buf_set_timeout : ℤ → EpBuf → EpBuf
ep_buf_set_timeout ms b = record b { file = detect (get_detect b.file) ms b.file }

output_len : List EpBuffer → ℕ
output_len [] = 0
output_len (b ∷ rest) = b.len_total - b.len_sent + output_len rest

unfoldable pub ep_buf_get_output_len : EpBuf → ℕ
unfolding output_len
ep_buf_get_output_len b = output_len b.list_write_buf
