-- ===== src/EpBuffer/Stream.antt =====
-- ep_buffer.c: the bytes that a list of buffers still holds, and what `ep_buffer_read` makes of
-- them.
use h2_client_proxy.Base.{
  ℕ, ◌+◌, ◌-◌, ◌≤◌, ◌<◌, min, List, [], ◌∷◌, ◌++◌, ◌≡◌, ap, ◌∙◌, arith, append-nil, append_assoc,
  length, take, drop, length-append, length-drop, take_all, take-append_ge, take-append_le, Bytes,
  drop-append_ge, drop-append_le, refl, some, inl, inr, Bool-cases, leb, leb→le,
}
use h2_client_proxy.EpBuffer.{
  EpBuffer, ep_buffer_create, ep_buffer_read, read_loop, read_part, slice,
}

abbrev pub unsent : EpBuffer → Bytes
unsent b = drop b.len_sent b.buf

abbrev pub pending : List EpBuffer → Bytes
pending [] = []
pending (b ∷ bs) = unsent b ++ pending bs

-- A buffer in a list: its length is right, and something of it is left to send.
pub record IsLive (b : EpBuffer) : Type 0 where
  pub total : b.len_total ≡ length b.buf
  pub left : b.len_sent < b.len_total

abbrev pub AllLive : List EpBuffer → Type 0
AllLive [] = Unit {0}
AllLive (b ∷ bs) = IsLive b × AllLive bs

pub ep_buffer_create-IsLive :
    (s : Bytes) {b : EpBuffer} → ep_buffer_create s ≡ some b → IsLive b × (unsent b ≡ s)
unfolding ep_buffer_create
ep_buffer_create-IsLive [] e = cc
ep_buffer_create-IsLive (c ∷ s) e = ground arith

pub length-unsent : (b : EpBuffer) → IsLive b → length (unsent b) ≡ b.len_total - b.len_sent
length-unsent b v = omega (arith, length-drop {0} b.len_sent b.buf, v.total)

-- All that is left of a buffer is copied when its length is asked for.
pub slice-all : (b : EpBuffer) → IsLive b → slice b (b.len_total - b.len_sent) ≡ unsent b
slice-all b v = take_all (b.len_total - b.len_sent) (unsent b) (omega (arith, length-unsent b v))

pub take-nil : (n : ℕ) → take {A = ℕ} n [] ≡ []
take-nil n = take_all n [] (omega arith)

-- The first buffer is taken whole, or in part and then nothing more.
pub take-pending_whole :
    (b : EpBuffer) (rest : Bytes) (n : ℕ)
    → IsLive b
    → b.len_total - b.len_sent ≤ n
    → take n (unsent b ++ rest)
      ≡ slice b (b.len_total - b.len_sent) ++ take (n - (b.len_total - b.len_sent)) rest
take-pending_whole b rest n v h =
    rw (slice-all b v) (
      rw (← length-unsent b v)
        (take-append_ge n (unsent b) rest (omega (arith, length-unsent b v))))

pub take-pending_part :
    (b : EpBuffer) (rest : Bytes) (n : ℕ)
    → IsLive b
    → n ≤ b.len_total - b.len_sent
    → take n (unsent b ++ rest) ≡ slice b n
take-pending_part b rest n v h = take-append_le n (unsent b) rest (omega (arith, length-unsent b v))

pub drop-pending_whole :
    (b : EpBuffer) (rest : Bytes) (n : ℕ)
    → IsLive b
    → b.len_total - b.len_sent ≤ n
    → drop n (unsent b ++ rest) ≡ drop (n - (b.len_total - b.len_sent)) rest
drop-pending_whole b rest n v h =
    rw (← length-unsent b v) (drop-append_ge n (unsent b) rest (omega (arith, length-unsent b v)))

pub drop-pending_part :
    (b : EpBuffer) (rest : Bytes) (n : ℕ)
    → IsLive b
    → n ≤ b.len_total - b.len_sent
    → drop n (unsent b ++ rest) ≡ drop n (unsent b) ++ rest
drop-pending_part b rest n v h = drop-append_le n (unsent b) rest (omega (arith, length-unsent b v))

pub length-pending-cons :
    (b : EpBuffer) (bs : List EpBuffer)
    → IsLive b
    → length (pending (b ∷ bs)) ≡ b.len_total - b.len_sent + length (pending bs)
length-pending-cons b bs v =
    omega (arith, length-append {0} (unsent b) (pending bs), length-unsent b v)

pub pending-append : (bs cs : List EpBuffer) → pending (bs ++ cs) ≡ pending bs ++ pending cs
pending-append [] cs = refl
pending-append (b ∷ bs) cs = rw (pending-append bs cs, append_assoc)

pub AllLive-append : (bs cs : List EpBuffer) → AllLive bs → AllLive cs → AllLive (bs ++ cs)
AllLive-append [] cs a c = c
AllLive-append (b ∷ bs) cs a c = (a.0, AllLive-append bs cs a.1 c)

read_loop-copied :
    (bs : List EpBuffer) (out : Bytes) (cpy len : ℕ)
    → AllLive bs
    → cpy ≤ len
    → (read_loop bs out cpy len).0 ≡ out ++ take (len - cpy) (pending bs)
unfolding read_loop
read_loop-copied [] out cpy len a h = rw (take-nil (len - cpy), append-nil out)
read_loop-copied (b ∷ bs) out cpy len a h =
    let cur = b.len_total - b.len_sent in
    elim (Bool-cases (leb cur (len - cpy))) [
      | inl fits ↦
          let le : cur ≤ len - cpy = leb→le cur (len - cpy) fits in
          let rest : len - (cpy + cur) ≡ len - cpy - cur = omega arith in
          rw (fits, take-pending_whole b (pending bs) (len - cpy) a.0 le, ← rest, ← append_assoc)
            (read_loop-copied bs (out ++ slice b cur) (cpy + cur) len a.1 (omega arith))
      | inr part ↦ rw (part, take-pending_part b (pending bs) (len - cpy) a.0 (ground arith))
    ]

read_loop-count :
    (bs : List EpBuffer) (out : Bytes) (cpy len : ℕ)
    → AllLive bs
    → cpy ≤ len
    → (read_loop bs out cpy len).1 ≡ cpy + min (len - cpy) (length (pending bs))
unfolding read_loop
read_loop-count [] out cpy len a h = omega arith
read_loop-count (b ∷ bs) out cpy len a h =
    let cur = b.len_total - b.len_sent in
    let whole : length (pending (b ∷ bs)) ≡ cur + length (pending bs) =
      omega (arith, length-append (unsent b) (pending bs), length-unsent b a.0) in
    elim (Bool-cases (leb cur (len - cpy))) [
      | inl fits ↦
          let le : cur ≤ len - cpy = leb→le cur (len - cpy) fits in
          rw fits (
            omega
              (arith, read_loop-count bs (out ++ slice b cur) (cpy + cur) len a.1 (omega arith)))
      | inr part ↦ let lt : len - cpy < cur = ground arith in rw part (omega arith)
    ]

-- `ep_buffer_read` copies the first `len` of the bytes that the list holds, or all of them if
-- there are fewer, and returns their number.
pub ep_buffer_read-take :
    (bs : List EpBuffer) (len : ℕ)
    → AllLive bs
    → ((ep_buffer_read bs len).0 ≡ take len (pending bs))
      × ((ep_buffer_read bs len).1 ≡ min len (length (pending bs)))
unfolding ep_buffer_read
ep_buffer_read-take bs len a =
    let e : len - 0 ≡ len = omega arith in
    (
      read_loop-copied bs [] 0 len a (omega arith) ∙ ap (λ k. take k (pending bs)) e,
      omega (arith, read_loop-count bs [] 0 len a (omega arith)),
    )

-- A read that ends within the first buffer leaves the list as it was: the bytes that it copied
-- are not consumed, and the next read copies them again.
pub ep_buffer_read-within_first :
    (b : EpBuffer) (bs : List EpBuffer) (len : ℕ)
    → len < b.len_total - b.len_sent
    → (ep_buffer_read (b ∷ bs) len).2 ≡ b ∷ bs
unfolding ep_buffer_read read_part
ep_buffer_read-within_first b bs len h = ground arith
