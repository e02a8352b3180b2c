-- ===== src/EpBuf/Output.antt =====
-- ep_buf_tcp.c: the bytes written to a connection against those sent and those still queued.
use h2_client_proxy.Base.{
  drop-ne-nil, list_cases, ℕ, ◌+◌, ◌-◌, ◌≤◌, ◌≡◌, ◌≢◌, Option, some, List, [], ◌∷◌, ◌++◌, refl, sym,
  ap, ◌∙◌, inl, inr, arith, append-nil, append_assoc, length, take, drop, length-append,
  length-take, take-append-drop, take_all, Bytes, lt→ltb, dec_lt,
}
use h2_client_proxy.Ep.Types.{ep_write, mask_or}
use h2_client_proxy.Ep.Watch.{get_detect}
use h2_client_proxy.EpBuffer.{EpBuffer, ep_buffer_create}
use h2_client_proxy.EpBuffer.Stream.{
  unsent, pending, AllLive, pending-append, AllLive-append, length-pending-cons,
}
use h2_client_proxy.EpBuf.{
  EpBuf, taken, again, ep_buf_write, queue, write_now, write_first, ask, ep_buf_get_output_len,
  output_len,
}

-- All that was sent or is still to send.
abbrev pub stream : EpBuf → Bytes
stream b = b.sent ++ pending b.list_write_buf

-- The buffer that a write makes.
record Wrote (bytes : Bytes) (b : EpBuf) (r : Option EpBuf) : Type 0 where
  after : EpBuf
  runs : r ≡ some after
  stream_is : stream after ≡ stream b ++ bytes
  live : AllLive after.list_write_buf

queue-Wrote :
    (bytes : Bytes) (b : EpBuf)
    → bytes ≢ []
    → AllLive b.list_write_buf
    → Wrote bytes b (queue bytes b)
unfolding queue ep_buffer_create
queue-Wrote [] b ne a = absurd (ne refl)
queue-Wrote (c ∷ cs) b ne a =
    let made : EpBuffer = record { buf = c ∷ cs; len_total = length (c ∷ cs); len_sent = 0 } in
    record {
      after =
          ask (mask_or (get_detect b.file) ep_write)
            (record b { list_write_buf = b.list_write_buf ++ made ∷ [] });
      runs = refl;
      stream_is =
          ap (◌++◌ b.sent) (pending-append b.list_write_buf (made ∷ []) ∙ rw append-nil)
          ∙ sym (append_assoc b.sent (pending b.list_write_buf) (c ∷ cs));
      live = AllLive-append b.list_write_buf (made ∷ []) a (omega arith, tt);
    }

-- The taken part goes behind what was sent, with nothing queued before.
taken_part :
    (s p bytes : Bytes) (n : ℕ) → p ≡ [] → s ++ take n bytes ++ p ++ drop n bytes ≡ s ++ p ++ bytes
taken_part s p bytes n e = rw e (simp (append-nil, append_assoc, take-append-drop))

write_now-Wrote :
    (bytes : Bytes) (n : ℕ) (b : EpBuf)
    → b.list_write_buf ≡ []
    → Wrote bytes b (write_now bytes (taken n) b)
unfolding write_now
write_now-Wrote bytes n b empty =
    let b' = record b { sent = b.sent ++ take n bytes } in
    elim (dec_lt n (length bytes)) [
      | yes part ↦
          let q = queue-Wrote (drop n bytes) b' (drop-ne-nil n bytes part) (rw empty tt) in
          record {
            after = q.after;
            runs = rw (lt→ltb n (length bytes) part) q.runs;
            stream_is =
                q.stream_is
                ∙ taken_part b.sent (pending b.list_write_buf) bytes n (ap pending empty);
            live = q.live;
          }
      | no whole ↦ record {
        after = b';
        runs = ground arith;
        stream_is = rw (take_all n bytes (omega arith)) (simp (ap pending empty, append-nil));
        live = rw empty tt;
      }
    ]

output_len-pending : (bs : List EpBuffer) → AllLive bs → output_len bs ≡ length (pending bs)
unfolding output_len
output_len-pending [] a = refl
output_len-pending (b ∷ bs) a =
    omega (arith, output_len-pending bs a.1, length-pending-cons b bs a.0)

-- A write of some bytes, where `send`, if it is called, takes at most all of them: no assertion
-- fails, and what was sent or is queued is followed by exactly these bytes.
pub ep_buf_write-stream :
    (bytes : Bytes) (n : ℕ) (b : EpBuf)
    → bytes ≢ []
    → AllLive b.list_write_buf
    → (b' : EpBuf) × (ep_buf_write bytes (taken n) b ≡ some b')
      × (stream b' ≡ stream b ++ bytes)
      × AllLive b'.list_write_buf
unfolding ep_buf_write
ep_buf_write-stream bytes n b ne a = elim (list_cases b.list_write_buf) [
  | inl empty ↦
      let w = write_now-Wrote bytes n b empty in
      (w.after, rw (empty, ep_buf_write) w.runs, w.stream_is, w.live)
  | inr (f, rest, e) ↦
      let w = queue-Wrote bytes b ne a in
      (w.after, rw (e, ep_buf_write) w.runs, w.stream_is, w.live)
]

-- A write to an empty queue for which `send` fails, if only because it would block, stores nothing:
-- the bytes are in no queue and were not sent.
pub ep_buf_write_drops :
    (bytes : Bytes) (b : EpBuf)
    → bytes ≢ []
    → b.list_write_buf ≡ []
    → (b' : EpBuf) × (ep_buf_write bytes again b ≡ some b') × (stream b' ≢ stream b ++ bytes)
unfolding ep_buf_write write_now
ep_buf_write_drops [] b ne empty = absurd (ne refl)
ep_buf_write_drops (c ∷ cs) b ne empty =
    (b, ground arith, λ e. omega (arith, ap length e, length-append (stream b) (c ∷ cs)))

-- `write` took `n` bytes of the first buffer: only these and the other buffers remain of the
-- stream.
write_first-stream :
    (n : ℕ) (b : EpBuf) (first : EpBuffer) (rest : List EpBuffer)
    → b.list_write_buf ≡ first ∷ rest
    → stream (write_first (taken n) b).0 ≡ b.sent ++ (take n (unsent first) ++ pending rest)
unfolding write_first
write_first-stream n b first rest e =
    rw (e, write_first) (append_assoc b.sent (take n (unsent first)) (pending rest))

-- Where `write` takes all that is left of the first buffer, no byte of the stream is lost.
pub write_first_keeps :
    (n : ℕ) (b : EpBuf) (first : EpBuffer) (rest : List EpBuffer)
    → b.list_write_buf ≡ first ∷ rest
    → length (unsent first) ≤ n
    → stream (write_first (taken n) b).0 ≡ stream b
write_first_keeps n b first rest e all =
    write_first-stream n b first rest e
    ∙ rw (take_all n (unsent first) all) (ap (λ bs. b.sent ++ pending bs) (sym e))

-- Where `write` takes only a part of the first buffer, the rest of that buffer is lost: the stream
-- is shorter by so many bytes.
pub write_first_loses :
    (n : ℕ) (b : EpBuf) (first : EpBuffer) (rest : List EpBuffer)
    → b.list_write_buf ≡ first ∷ rest
    → n ≤ length (unsent first)
    → length (stream (write_first (taken n) b).0) + (length (unsent first) - n) ≡ length (stream b)
write_first_loses n b first rest e part =
    let whole : stream b ≡ b.sent ++ (unsent first ++ pending rest) =
      ap (λ bs. b.sent ++ pending bs) e in
    omega (
      arith,
      ap length (write_first-stream n b first rest e),
      ap length whole,
      length-append b.sent (take n (unsent first) ++ pending rest),
      length-append b.sent (unsent first ++ pending rest),
      length-append (take n (unsent first)) (pending rest),
      length-append (unsent first) (pending rest),
      length-take n (unsent first),
    )

-- `ep_buf_get_output_len` counts the bytes queued.
pub ep_buf_get_output_len-pending :
    (b : EpBuf)
    → AllLive b.list_write_buf
    → ep_buf_get_output_len b ≡ length (pending b.list_write_buf)
unfolding ep_buf_get_output_len
ep_buf_get_output_len-pending b a = output_len-pending b.list_write_buf a
