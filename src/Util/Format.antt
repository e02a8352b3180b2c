-- ===== src/Util/Format.antt =====
-- util.c: what `append_format` leaves in the buffer.
use h2_client_proxy.Base.{
  ℕ, ◌+◌, ◌-◌, ◌≤◌, ◌<◌, ◌≡◌, ◌++◌, arith, length, length-append, take_all, Bytes,
}
use h2_client_proxy.Util.{append_format, tmp_buf_size}

-- A text below the size of `tmp_buf` and of the limit is appended whole.
pub append_format-fits :
    (buf : Bytes) (len : ℕ) (text : Bytes)
    → length text < tmp_buf_size
    → length text ≤ len
    → append_format buf len text ≡ buf ++ text
unfolding append_format
append_format-fits buf len text small h =
    rw (take_all (tmp_buf_size - 1) text (omega arith), take_all len text h)

-- `len` bounds what one call appends, not what the buffer holds afterwards: a text that is
-- within both limits but for which the buffer of `len` bytes has no room left, with its
-- terminator, is written past the end of the buffer.
pub append_format_overflow :
    (buf : Bytes) (len : ℕ) (text : Bytes)
    → length text < tmp_buf_size
    → length text ≤ len
    → len ≤ length buf + length text
    → len < length (append_format buf len text) + 1
append_format_overflow buf len text small h full =
    rw (append_format-fits buf len text small h) (omega (arith, length-append {0} buf text))
