-- ===== src/Client/Output.antt =====
-- client.c: `client_write` and `client_writecb`. What `send` returns is an argument.
pub mod Stream
pub mod Drain
use h2_client_proxy.Base.{
  ℕ, suc, ◌+◌, ◌-◌, Bool, true, false, not, Option, none, some, List, [], ◌∷◌, ◌++◌, ltb,
  if◌then◌else◌, length, take, drop, Bytes,
}
use h2_client_proxy.Ep.Types.{Mask, no_events, ep_write, mask_or}
use h2_client_proxy.Ep.Watch.{Watch, detect, get_detect, get_timeout}
use h2_client_proxy.EpBuffer.{EpBuffer}
use h2_client_proxy.Client.Types.{Client, client_drop, call_relay, relay_resume_read}

-- A number of bytes, or -1 with EINPROGRESS or with another `errno`.
pub data SendResult : Type 0 where
  taken : ℕ → SendResult
  in_progress failed : SendResult

-- A new buffer at the end of the list.
abbrev pub keep : Bytes → Client → Client
keep bytes c = record c {
  list_response_write_buffer =
      c.list_response_write_buffer
      ++ record { buf = bytes; len_total = length bytes; len_sent = 0 } ∷ [];
  pending_write = c.pending_write + length bytes;
}

abbrev pub watch_write : Client → Client
watch_write c = record c {
  file = detect (mask_or (get_detect c.file) ep_write) (get_timeout c.file) c.file;
}

unfoldable write_part : Bytes → ℕ → Client → Client
write_part bytes n c =
    if ltb n (length bytes)
    then watch_write (keep (drop n bytes) (record c { sent = c.sent ++ take n bytes }))
    else record c { sent = c.sent ++ take n bytes }

unfoldable write_now : Bytes → SendResult → Client → Client
unfolding write_part
write_now bytes (taken n) c = write_part bytes n c
write_now bytes in_progress c = watch_write (keep bytes c)
write_now bytes failed c = c

-- `r` is what `send` returns, if it is called. No caller looks at what `client_write` returns.
unfoldable pub client_write : Bytes → SendResult → Client → Client
unfolding write_now
client_write bytes r c = elim c.list_response_write_buffer [
  | [] ↦ write_now bytes r c
  | _ ∷ _ ↦ keep bytes c
]

-- What the loop of `client_writecb` leaves: the list, what was sent in it, and `is_error`.
pub record Drained : Type 0 where
  pub left : List EpBuffer
  pub out : Bytes
  pub is_error : Bool

abbrev kept_before : EpBuffer → Drained → Drained
kept_before b d = record d { left = b ∷ d.left }

abbrev sent_before : Bytes → Drained → Drained
sent_before s d = record d { out = s ++ d.out }

-- One buffer, with the rest of the loop. On EINPROGRESS the loop goes on with the next buffer.
unfoldable pub drain_one : EpBuffer → SendResult → List EpBuffer → Drained → Drained
drain_one b (taken n) rest next =
    if ltb n (b.len_total - b.len_sent)
    then record {
      left = record b { len_sent = b.len_sent + n } ∷ rest;
      out = take n (drop b.len_sent b.buf);
      is_error = false;
    }
    else sent_before (take n (drop b.len_sent b.buf)) next
drain_one b in_progress rest next = kept_before b next
drain_one b failed rest next = record { left = b ∷ rest; out = []; is_error = true }

-- `send` returns `sends i` for the buffer `i`.
unfoldable pub drain : (ℕ → SendResult) → ℕ → List EpBuffer → Drained
unfolding drain_one
drain sends i [] = record { left = []; out = []; is_error = false }
drain sends i (b ∷ rest) = drain_one b (sends i) rest (drain sends (suc i) rest)

-- `pending_write` falls by what is sent.
unfoldable pub after_drain : Drained → Client → Client
after_drain d c = record c {
  list_response_write_buffer = d.left;
  sent = c.sent ++ d.out;
  pending_write = c.pending_write - length d.out;
}

abbrev pub write_limit : ℕ
write_limit = 30000

-- `detect &= (!EP_WRITE)` is 0: the file asks for nothing any more.
unfoldable pub stop_watching : Client → Client
stop_watching c = elim c.list_response_write_buffer [
  | [] ↦ record c { file = detect no_events (get_timeout c.file) c.file }
  | _ ∷ _ ↦ c
]

unfoldable pub finish_writing : Bool → Client → Option Client
unfolding stop_watching
finish_writing true c = some (client_drop c)
finish_writing false c =
    let c' = stop_watching c in
    if ltb c'.pending_write write_limit then call_relay relay_resume_read c' else some c'

-- The assertion is that writing is watched. With nothing to write, only reading is resumed.
unfoldable pub client_writecb : (ℕ → SendResult) → Client → Option Client
unfolding after_drain finish_writing
client_writecb sends c =
    if not (get_detect c.file).write then none else elim c.list_response_write_buffer [
      | [] ↦ call_relay relay_resume_read c
      | b ∷ rest ↦ let d = drain sends 0 (b ∷ rest) in finish_writing d.is_error (after_drain d c)
    ]
