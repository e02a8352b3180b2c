-- ===== src/EpBuffer.antt =====
-- ep_buffer.h and ep_buffer.c: a buffer of bytes of which a first part is already sent, and the
-- list of such buffers that holds a stream. A failed `assert` is `none`. Lengths are C ints that
-- do not overflow. Children: `Stream`, the bytes that a list of buffers still holds.
mod Tests
pub mod Stream
use h2_client_proxy.Base.{
  ℕ, ◌+◌, ◌-◌, Option, none, some, List, [], ◌∷◌, ◌++◌, leb, if◌then◌else◌, length, take, drop,
  Bytes,
}

pub record EpBuffer : Type 0 where
  pub buf : Bytes
  pub len_total : ℕ
  pub len_sent : ℕ

-- `assert(len)`
unfoldable pub ep_buffer_create : Bytes → Option EpBuffer
ep_buffer_create [] = none
ep_buffer_create (c ∷ cs) =
    some (record { buf = c ∷ cs; len_total = length (c ∷ cs); len_sent = 0 })

-- The bytes `pos->buf + pos->len_sent` and the `n` that follow.
abbrev pub slice : EpBuffer → ℕ → Bytes
slice pos n = take n (drop pos.len_sent pos.buf)

-- The last buffer that is looked at: `cpy_len` is set before `len_sent` is advanced by what is
-- left to copy.
read_part : EpBuffer → List EpBuffer → Bytes → ℕ → ℕ → Bytes × ℕ × List EpBuffer
read_part pos rest out cpy_len len =
    let copied = cpy_len + (len - cpy_len) in
    (
      out ++ slice pos (len - cpy_len),
      copied,
      record pos { len_sent = pos.len_sent + (len - copied) } ∷ rest,
    )

-- The loop over the list, with the bytes copied so far and their number.
read_loop : List EpBuffer → Bytes → ℕ → ℕ → Bytes × ℕ × List EpBuffer
unfolding read_part
read_loop [] out cpy_len len = (out, cpy_len, [])
read_loop (pos ∷ rest) out cpy_len len =
    let cur_buf_len = pos.len_total - pos.len_sent in
    let next = read_loop rest (out ++ slice pos cur_buf_len) (cpy_len + cur_buf_len) len in
    if leb cur_buf_len (len - cpy_len) then next else read_part pos rest out cpy_len len

-- The bytes copied, the returned count, and the list left.
unfoldable pub ep_buffer_read : List EpBuffer → ℕ → Bytes × ℕ × List EpBuffer
unfolding read_loop
ep_buffer_read head len = read_loop head [] 0 len
