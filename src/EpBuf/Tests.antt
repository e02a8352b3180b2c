-- ===== src/EpBuf/Tests.antt =====
-- Runs of the functions of ep_buf_tcp.c on small buffers.
use h2_client_proxy.Base.{◌+◌, ◌≡◌, ◌≢◌, refl, some, none, [], ◌∷◌, arith, true, false, not, length}
use h2_client_proxy.Base.Int.{pos}
use h2_client_proxy.Ep.Types.{ep_read, ep_write, no_events, all_events}
use h2_client_proxy.EpBuffer.{EpBuffer}
use h2_client_proxy.EpBuf.{
  EpBuf, Callback, BufEvent, taken, again, ep_buf_write, ep_buf_free, write_first, call_back,
  ep_buf_file_writecb, ep_buf_file_readcb, ep_buf_disable, ep_buf_get_output_len,
}
use h2_client_proxy.EpBuf.Output.{
  stream, ep_buf_write-stream, ep_buf_write_drops, write_first_keeps, write_first_loses,
  ep_buf_get_output_len-pending,
}
use h2_client_proxy.EpBuf.Free.{
  ep_buf_file_writecb-is_freed, call_back_frees, ep_buf_file_readcb_stuck, ep_buf_disable_all,
}

abbrev first : EpBuffer
first = record { buf = 1 ∷ 2 ∷ 3 ∷ []; len_total = 3; len_sent = 1 }

abbrev second : EpBuffer
second = record { buf = 4 ∷ []; len_total = 1; len_sent = 0 }

-- A connection with two buffers to send.
abbrev busy : EpBuf
busy = record {
  file = record { mask = all_events; is_registered = true; timeout = pos 30 };
  read_buf = none;
  is_incb = false;
  is_free_pending = false;
  list_write_buf = first ∷ second ∷ [];
  detect_mask = ep_write;
  sent = 1 ∷ [];
  is_freed = false;
}

abbrev idle : EpBuf
idle = record busy { list_write_buf = [] }

ep_buf_write-stream_example :
    (b' : EpBuf) × (ep_buf_write (5 ∷ 6 ∷ []) (taken 1) busy ≡ some b')
    × (stream b' ≡ 1 ∷ 2 ∷ 3 ∷ 4 ∷ 5 ∷ 6 ∷ [])
ep_buf_write-stream_example =
    let w = ep_buf_write-stream (5 ∷ 6 ∷ []) 1 busy (λ e. cc) (omega arith) in (w.0, w.1, w.2)

ep_buf_write_drops_example :
    (b' : EpBuf) × (ep_buf_write (5 ∷ []) again idle ≡ some b') × (stream b' ≢ 1 ∷ 5 ∷ [])
ep_buf_write_drops_example = ep_buf_write_drops (5 ∷ []) idle (λ e. cc) refl

write_first_keeps_example : stream (write_first (taken 2) busy).0 ≡ 1 ∷ 2 ∷ 3 ∷ 4 ∷ []
write_first_keeps_example = write_first_keeps 2 busy first (second ∷ []) refl (omega arith)

-- One byte of two is taken, and the byte 3 is gone.
write_first_loses_example : length (stream (write_first (taken 1) busy).0) + 1 ≡ 4
write_first_loses_example = write_first_loses 1 busy first (second ∷ []) refl (omega arith)

lost_byte : stream (write_first (taken 1) busy).0 ≡ 1 ∷ 2 ∷ 4 ∷ []
unfolding write_first
lost_byte = refl

ep_buf_get_output_len-pending_example : ep_buf_get_output_len busy ≡ 3
ep_buf_get_output_len-pending_example = ep_buf_get_output_len-pending busy (omega arith)

-- A callback that frees the buffer.
abbrev freeing : Callback
freeing e b = record b { is_free_pending = true }

ep_buf_file_writecb-is_freed_example :
    (ep_buf_file_writecb freeing (taken 2) busy).1
    ≡ not (ep_buf_file_writecb freeing (taken 2) busy).0.is_freed
ep_buf_file_writecb-is_freed_example =
    ep_buf_file_writecb-is_freed freeing (taken 2) busy (λ e b i f. f) refl

freed_by_callback : (ep_buf_file_writecb freeing (taken 2) busy).1 ≡ false
unfolding ep_buf_file_writecb
freed_by_callback = refl

call_back_frees_example : (call_back freeing BufEvent.buf_error busy).0.is_freed ≡ true
call_back_frees_example = (call_back_frees freeing BufEvent.buf_error busy refl).0

ep_buf_file_readcb_stuck_example :
    (ep_buf_free (ep_buf_file_readcb freeing (some []) busy).0).is_freed ≡ false
ep_buf_file_readcb_stuck_example = ep_buf_file_readcb_stuck freeing (some []) busy refl refl

ep_buf_disable_all_example : (ep_buf_disable ep_read busy).file.mask ≡ no_events
ep_buf_disable_all_example = (ep_buf_disable_all ep_read busy refl refl).0
