-- ===== src/EpBuf/Free.antt =====
-- ep_buf_tcp.c: a buffer that is freed while its callback runs, and what `ep_buf_disable` turns off.
use h2_client_proxy.Base.{Bytes, Option, ◌≡◌, not, Bool, true, false, refl, arith}
use h2_client_proxy.Ep.Types.{no_events, is_some_event, Mask}
use h2_client_proxy.Ep.Watch.{get_detect, detect, get_timeout}
use h2_client_proxy.Base.Int.{ℤ, negsuc}
use h2_client_proxy.EpBuf.{
  ep_buf_disable, ep_buf_free, ep_buf_file_writecb, ep_buf_file_readcb, buf_error, buf_write_event,
  report_error, report_write, EpBuf, BufEvent, Callback, SendResult, call_back, finish, write_first,
  stop_writing,
}

-- A callback that uses the operations of a live buffer: while it runs, nothing frees the buffer.
abbrev pub IsCareful : Callback → Type 0
IsCareful cb =
    (e : BufEvent) (b : EpBuf) → b.is_incb ≡ true → b.is_freed ≡ false → (cb e b).is_freed ≡ false

-- Whether a step goes on is whether the buffer is still there.
abbrev Agrees : EpBuf × Bool → Type 0
Agrees r = r.1 ≡ not r.0.is_freed

finish-Agrees : (b : EpBuf) → b.is_incb ≡ false → b.is_freed ≡ false → Agrees (finish b)
unfolding finish
finish-Agrees b i f = ground arith

call_back-Agrees :
    (cb : Callback) (e : BufEvent) (b : EpBuf)
    → IsCareful cb
    → b.is_freed ≡ false
    → Agrees (call_back cb e b)
unfolding call_back
call_back-Agrees cb e b careful f =
    finish-Agrees (record (cb e (record b { is_incb = true })) { is_incb = false }) refl
      (careful e (record b { is_incb = true }) refl f)

write_first-is_freed : (r : SendResult) (b : EpBuf) → (write_first r b).0.is_freed ≡ b.is_freed
unfolding write_first
write_first-is_freed r b = ground arith

stop_writing-Agrees :
    (m : Mask) (timeout : ℤ) (b : EpBuf) → b.is_freed ≡ false → Agrees (stop_writing m timeout b)
unfolding stop_writing
stop_writing-Agrees m timeout b f = ground arith

report_error-Agrees :
    (cb : Callback) (is_error : Bool) (b : EpBuf)
    → IsCareful cb
    → b.is_freed ≡ false
    → Agrees (report_error cb is_error b)
unfolding report_error
report_error-Agrees cb true b careful f =
    call_back-Agrees cb buf_error (record b { file = detect no_events (negsuc 0) b.file }) careful f
report_error-Agrees cb false b careful f = ground arith

report_write-Agrees :
    (cb : Callback) (b : EpBuf) → IsCareful cb → b.is_freed ≡ false → Agrees (report_write cb b)
unfolding report_write
report_write-Agrees cb b careful f = ground (arith, call_back-Agrees cb buf_write_event b careful f)

-- With a callback that is careful, `ep_buf_file_writecb` on a buffer that is there returns -1
-- exactly when it has freed the buffer.
pub ep_buf_file_writecb-is_freed :
    (cb : Callback) (r : SendResult) (b : EpBuf)
    → IsCareful cb
    → b.is_freed ≡ false
    → (ep_buf_file_writecb cb r b).1 ≡ not (ep_buf_file_writecb cb r b).0.is_freed
unfolding ep_buf_file_writecb
ep_buf_file_writecb-is_freed cb r b careful f =
    let first = write_first r b in
    let stopped = stop_writing (get_detect b.file) (get_timeout b.file) first.0 in
    let reported = report_error cb first.1 stopped.0 in
    ground (
      arith,
      write_first-is_freed r b,
      stop_writing-Agrees (get_detect b.file) (get_timeout b.file) first.0,
      report_error-Agrees cb first.1 stopped.0 careful,
      report_write-Agrees cb reported.0 careful,
    )

-- A buffer that its callback frees, as `ep_buf_free` does while the callback runs, is kept until the
-- callback is over and freed then.
pub call_back_frees :
    (cb : Callback) (e : BufEvent) (b : EpBuf)
    → (cb e (record b { is_incb = true })).is_free_pending ≡ true
    → ((call_back cb e b).0.is_freed ≡ true) × ((call_back cb e b).1 ≡ false)
unfolding call_back finish ep_buf_free
call_back_frees cb e b p = ground arith

-- A buffer that does not watch for reading keeps `is_incb` after a read event that does not find it
-- freed: freeing it afterwards only marks it.
pub ep_buf_file_readcb_stuck :
    (cb : Callback) (bytes : Option Bytes) (b : EpBuf)
    → b.detect_mask.read ≡ false
    → b.is_free_pending ≡ false
    → (ep_buf_free (ep_buf_file_readcb cb bytes b).0).is_freed ≡ b.is_freed
unfolding ep_buf_file_readcb ep_buf_free finish
ep_buf_file_readcb_stuck cb bytes b d p = ground arith

-- Disabling reading, or writing, on a registered file stops both, and the file is not registered any
-- more, also when bytes are queued.
pub ep_buf_disable_all :
    (what : Mask) (b : EpBuf)
    → is_some_event what ≡ true
    → is_some_event b.file.mask ≡ true
    → ((ep_buf_disable what b).file.mask ≡ no_events)
      × ((ep_buf_disable what b).file.is_registered ≡ false)
      × ((ep_buf_disable what b).list_write_buf ≡ b.list_write_buf)
unfolding ep_buf_disable detect
ep_buf_disable_all what b some_event watched = ground arith
