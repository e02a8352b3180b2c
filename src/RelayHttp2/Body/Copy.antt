-- ===== src/RelayHttp2/Body/Copy.antt =====
-- relay_http2.c: what one call of the read callback of the data provider copies and leaves.
use h2_client_proxy.Base.{
  ℕ, ◌+◌, ◌-◌, ◌≤◌, ◌<◌, ◌==◌, min, true, List, [], ◌∷◌, ◌++◌, ◌≡◌, refl, ap, sym, ◌∙◌, arith,
  append-nil, append_assoc, length, take, drop, if◌then◌else◌, length-drop, drop-drop, drop_all,
  dec_lt, Bytes,
}
use h2_client_proxy.EpBuffer.{EpBuffer, slice}
use h2_client_proxy.EpBuffer.Stream.{
  pending, IsLive, AllLive, take-nil, take-pending_whole, take-pending_part, drop-pending_whole,
  drop-pending_part, length-pending-cons,
}
use h2_client_proxy.RelayHttp2.Types.{Http2Relay}
use h2_client_proxy.RelayHttp2.Body.{
  copy_loop, is_empty, sent, eof, deferred, relay_data_source_read_callback,
}

-- What the loop makes of the bytes that the list holds.
record Copies (bs : List EpBuffer) (out : Bytes) (cpy len : ℕ) (r : Bytes × ℕ × List EpBuffer)
    : Type 0 where
  copied : r.0 ≡ out ++ take (len - cpy) (pending bs)
  count : r.1 ≡ cpy + min (len - cpy) (length (pending bs))
  left : pending r.2 ≡ drop (len - cpy) (pending bs)
  live : AllLive r.2

drop-nil : (n : ℕ) → drop {A = ℕ} n [] ≡ []
drop-nil n = drop_all n [] (omega arith)

-- One round of the loop, where the buffer is sent in part and where it is sent to its end.
copy_loop_part :
    (b : EpBuffer) (bs : List EpBuffer) (out : Bytes) (cpy len : ℕ)
    → IsLive b
    → len - cpy < b.len_total - b.len_sent
    → copy_loop (b ∷ bs) out cpy len ≡ (
      out ++ slice b (len - cpy),
      cpy + (len - cpy),
      record b { len_sent = b.len_sent + (len - cpy) } ∷ bs,
    )
unfolding copy_loop
copy_loop_part b bs out cpy len v h = ground arith

copy_loop_whole :
    (b : EpBuffer) (bs : List EpBuffer) (out : Bytes) (cpy len : ℕ)
    → IsLive b
    → b.len_total - b.len_sent ≤ len - cpy
    → copy_loop (b ∷ bs) out cpy len
      ≡ copy_loop bs
          (out ++ slice b (b.len_total - b.len_sent))
          (cpy + (b.len_total - b.len_sent))
          len
unfolding copy_loop
copy_loop_whole b bs out cpy len v h = ground arith

Copies-part :
    (b : EpBuffer) (bs : List EpBuffer) (out : Bytes) (cpy len : ℕ)
    → IsLive b
    → AllLive bs
    → len - cpy < b.len_total - b.len_sent
    → Copies (b ∷ bs) out cpy len (
      out ++ slice b (len - cpy),
      cpy + (len - cpy),
      record b { len_sent = b.len_sent + (len - cpy) } ∷ bs,
    )
Copies-part b bs out cpy len v a h = record {
  copied = ap (◌++◌ out) (sym (take-pending_part b (pending bs) (len - cpy) v (omega arith)));
  count = omega (arith, length-pending-cons b bs v);
  left =
      ap (λ s. s ++ pending bs) (sym (drop-drop b.len_sent (len - cpy) b.buf))
      ∙ sym (drop-pending_part b (pending bs) (len - cpy) v (omega arith));
  live = (record { total = v.total; left = omega arith }, a);
}

Copies-whole :
    (b : EpBuffer) (bs : List EpBuffer) (out : Bytes) (cpy len : ℕ) (r : Bytes × ℕ × List EpBuffer)
    → IsLive b
    → b.len_total - b.len_sent ≤ len - cpy
    → Copies bs (out ++ slice b (b.len_total - b.len_sent)) (cpy + (b.len_total - b.len_sent)) len r
    → Copies (b ∷ bs) out cpy len r
Copies-whole b bs out cpy len r v h c =
    let cur = b.len_total - b.len_sent in
    let rest : len - (cpy + cur) ≡ len - cpy - cur = omega arith in
    record {
      copied =
          c.copied
          ∙ append_assoc out (slice b cur) _
          ∙ ap (λ k. out ++ (slice b cur ++ take k (pending bs))) rest
          ∙ ap (◌++◌ out) (sym (take-pending_whole b (pending bs) (len - cpy) v h));
      count = omega (arith, c.count, length-pending-cons b bs v);
      left =
          c.left
          ∙ ap (λ k. drop k (pending bs)) rest
          ∙ sym (drop-pending_whole b (pending bs) (len - cpy) v h);
      live = c.live;
    }

copy_loop-Copies :
    (bs : List EpBuffer) (out : Bytes) (cpy len : ℕ)
    → AllLive bs
    → cpy ≤ len
    → Copies bs out cpy len (copy_loop bs out cpy len)
copy_loop-Copies [] out cpy len a h =
    unfold copy_loop in
    record {
      copied = rw (take-nil (len - cpy), append-nil out);
      count = omega arith;
      left = rw (drop-nil (len - cpy));
      live = tt;
    }
copy_loop-Copies (b ∷ bs) out cpy len a h =
    let cur = b.len_total - b.len_sent in
    elim (dec_lt (len - cpy) cur) [
      | yes part ↦
          rw (copy_loop_part b bs out cpy len a.0 part) (Copies-part b bs out cpy len a.0 a.1 part)
      | no whole ↦ rw (copy_loop_whole b bs out cpy len a.0 (omega arith)) (
          Copies-whole b bs out cpy len _ a.0 (omega arith)
            (copy_loop-Copies bs (out ++ slice b cur) (cpy + cur) len a.1 (omega arith)))
    ]

is_empty_of_pending :
    (bs : List EpBuffer) → AllLive bs → length (pending bs) ≡ 0 → is_empty bs ≡ true
is_empty_of_pending [] a e = refl
is_empty_of_pending (b ∷ bs) a e = absurd (omega (arith, length-pending-cons b bs a.0))

module _ (relay : Http2Relay) (len : ℕ) (live : AllLive relay.list_write_buf) where
  copies : Copies relay.list_write_buf [] 0 len (copy_loop relay.list_write_buf [] 0 len)
  copies = copy_loop-Copies relay.list_write_buf [] 0 len live (omega arith)

  -- Where every buffer of the relay has bytes left, the read callback hands out the first `len`
  -- bytes of the body that are not yet sent, or all if there are fewer, the others stay, in
  -- order, in buffers with bytes left, and nothing else of the relay changes.
  pub relay_data_source_read_callback-pending :
      let (result, out, relay') = relay_data_source_read_callback relay len in
      (out ≡ take len (pending relay.list_write_buf))
      × (pending relay'.list_write_buf ≡ drop len (pending relay.list_write_buf))
      × AllLive relay'.list_write_buf
      × (relay' ≡ record relay { list_write_buf = relay'.list_write_buf })
  unfolding relay_data_source_read_callback
  relay_data_source_read_callback-pending =
      let e : len - 0 ≡ len = omega arith in
      (
        copies.copied ∙ ap (λ k. take k (pending relay.list_write_buf)) e,
        copies.left ∙ ap (λ k. drop k (pending relay.list_write_buf)) e,
        copies.live,
        refl,
      )

  -- For a positive `len`: with no byte left to send, the callback reports the end of the body if
  -- the request is complete, and defers otherwise; else it reports the number of bytes sent,
  -- which is `len` or all that is left.
  pub relay_data_source_read_callback-result :
      0 < len
      → (relay_data_source_read_callback relay len).0 ≡ (
          if length (pending relay.list_write_buf) == 0
          then (if relay.is_request_complete then eof else deferred)
          else sent (min len (length (pending relay.list_write_buf))))
  unfolding relay_data_source_read_callback
  relay_data_source_read_callback-result h =
      let left = (copy_loop relay.list_write_buf [] 0 len).2 in
      let remaining : length (pending left) ≡ length (pending relay.list_write_buf) - (len - 0) =
        ap length copies.left ∙ length-drop (len - 0) (pending relay.list_write_buf) in
      ground (arith, copies.count, remaining, is_empty_of_pending left copies.live)
