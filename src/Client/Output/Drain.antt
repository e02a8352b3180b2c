-- ===== src/Client/Output/Drain.antt =====
-- client.c: what `client_writecb` leaves of the bytes that wait, and what it asks for afterwards.
use h2_client_proxy.Base.{
  list_cases, ltb, length-append, Bool, length, true, some, ◌<◌, none, Option, ◌⊎◌, inl, inr,
  Bool-cases, ℕ, suc, ◌+◌, ◌-◌, ◌≡◌, ◌≢◌, false, List, [], ◌∷◌, ◌++◌, refl, sym, ap, ◌∙◌, arith,
  append_assoc, take, drop, take-append-drop, take_all, drop-drop, dec_lt,
}
use h2_client_proxy.EpBuffer.{EpBuffer}
use h2_client_proxy.EpBuffer.Stream.{IsLive, AllLive, unsent, pending, length-unsent}
use h2_client_proxy.Client.Output.Stream.{stream, IsCounted}
use h2_client_proxy.Client.Types.{Client, client_drop, record_call, relay_resume_read}
use h2_client_proxy.Client.Output.{
  get_timeout, no_events, detect, get_detect, Client, client_drop, after_drain, client_writecb,
  stop_watching, finish_writing, write_limit, SendResult, taken, in_progress, failed, Drained,
  drain, drain_one,
}

-- What is left and what was sent, in order, are the bytes that waited.
pub record Splits (bs : List EpBuffer) (d : Drained) : Type 0 where
  pub bytes : d.out ++ pending d.left ≡ pending bs
  pub live : AllLive d.left

halves : (b : EpBuffer) (n : ℕ) → take n (unsent b) ++ drop (b.len_sent + n) b.buf ≡ unsent b
halves b n =
    ap (◌++◌ (take n (unsent b))) (sym (drop-drop b.len_sent n b.buf))
    ∙ take-append-drop n (unsent b)

drain_one-Splits :
    (b : EpBuffer) (r : SendResult) (rest : List EpBuffer) (next : Drained)
    → r ≢ in_progress
    → IsLive b
    → AllLive rest
    → Splits rest next
    → Splits (b ∷ rest) (drain_one b r rest next)
unfolding drain_one
drain_one-Splits b (taken n) rest next ok v a s = elim (dec_lt n (b.len_total - b.len_sent)) [
  | yes part ↦
      let stays : drain_one b (taken n) rest next ≡ record {
        left = record b { len_sent = b.len_sent + n } ∷ rest;
        out = take n (unsent b);
        is_error = false;
      } =
        ground arith in
      rw stays (record {
        bytes =
            sym (append_assoc (take n (unsent b)) (drop (b.len_sent + n) b.buf) (pending rest))
            ∙ ap (λ u. u ++ pending rest) (halves b n);
        live = (record { total = v.total; left = omega arith }, a);
      })
  | no whole ↦
      let goes : drain_one b (taken n) rest next
          ≡ record next { out = take n (unsent b) ++ next.out } =
        ground arith in
      rw goes (record {
        bytes =
            append_assoc (take n (unsent b)) next.out (pending next.left)
            ∙ rw (take_all n (unsent b) (omega (arith, length-unsent b v))) (rw s.bytes refl);
        live = s.live;
      })
]
drain_one-Splits b in_progress rest next ok v a s = absurd (ok refl)
drain_one-Splits b failed rest next ok v a s = record { bytes = refl; live = (v, a) }

-- Where no `send` is in progress, the loop sends a prefix of what waits and leaves the rest.
pub drain-Splits :
    (sends : ℕ → SendResult) (i : ℕ) (bs : List EpBuffer)
    → ((k : ℕ) → sends k ≢ in_progress)
    → AllLive bs
    → Splits bs (drain sends i bs)
unfolding drain
drain-Splits sends i [] ok a = record { bytes = refl; live = tt }
drain-Splits sends i (b ∷ rest) ok (v, a) =
    drain_one-Splits b (sends i) rest (drain sends (suc i) rest) (ok i) v a
      (drain-Splits sends (suc i) rest ok a)

-- A client after the loop: nothing of the stream is lost, and `pending_write` counts what waits.
after_drain-stream :
    (c : Client) (d : Drained)
    → IsCounted c
    → Splits c.list_response_write_buffer d
    → (stream (after_drain d c) ≡ stream c) × IsCounted (after_drain d c)
unfolding after_drain
after_drain-stream c d v s = (
  append_assoc c.sent d.out (pending d.left) ∙ ap (◌++◌ c.sent) s.bytes,
  record {
    live = s.live;
    counted = omega (arith, v.counted, ap length s.bytes, length-append d.out (pending d.left));
  },
)

-- What is true of a client after its writes.
record Flushed (error : Bool) (c : Client) (r : Option Client) : Type 0 where
  after : Client
  runs : r ≡ some after
  result :
      ((error ≡ true) × (after.is_dropped ≡ true)) ⊎ ((stream after ≡ stream c) × IsCounted after)

stop_watching-same :
    (c0 c : Client)
    → (stream c ≡ stream c0) × IsCounted c
    → ((stream (stop_watching c) ≡ stream c0) × IsCounted (stop_watching c))
      × ((stop_watching c).relay ≡ c.relay)
unfolding stop_watching
stop_watching-same c0 c (e, v) = elim (list_cases c.list_response_write_buffer) [
  | inl empty ↦
      let s : stop_watching c ≡ record c { file = detect no_events (get_timeout c.file) c.file } =
        ground arith in
      rw s ((e, record { live = v.live; counted = v.counted }), refl)
  | inr (f, rest, w) ↦ let s : stop_watching c ≡ c = ground arith in rw s ((e, v), refl)
]

finish_writing-Flushed :
    (c0 c : Client) (error : Bool) (id : ℕ)
    → c.relay ≡ some id
    → (stream c ≡ stream c0) × IsCounted c
    → Flushed error c0 (finish_writing error c)
unfolding finish_writing client_drop
finish_writing-Flushed c0 c true id r h = record {
  after = client_drop c;
  runs = refl;
  result = inl (refl, refl);
}
finish_writing-Flushed c0 c false id r h =
    let s = stop_watching-same c0 c h in
    elim (Bool-cases (ltb (stop_watching c).pending_write write_limit)) [
      | inl low ↦ record {
        after = record_call relay_resume_read (stop_watching c);
        runs = ground (arith, s.1);
        result = inr (s.0.0, record { live = s.0.1.live; counted = s.0.1.counted });
      }
      | inr high ↦ record { after = stop_watching c; runs = ground arith; result = inr s.0 }
    ]

-- The descriptor of a client with a relay can be written to, and no `send` is in progress: no
-- assertion fails, and either a `send` failed and the client is dropped, or what was sent and what
-- waits are together what they were before, and `pending_write` is the number of bytes that wait.
pub client_writecb-stream :
    (sends : ℕ → SendResult) (c : Client) (id : ℕ)
    → ((k : ℕ) → sends k ≢ in_progress)
    → (get_detect c.file).write ≡ true
    → c.relay ≡ some id
    → IsCounted c
    → (c' : Client) × (client_writecb sends c ≡ some c')
      × (((drain sends 0 c.list_response_write_buffer).is_error ≡ true) × (c'.is_dropped ≡ true)
          ⊎ ((stream c' ≡ stream c) × IsCounted c'))
unfolding client_writecb
client_writecb-stream sends c id ok w r v = elim (list_cases c.list_response_write_buffer) [
  | inl empty ↦ (
    record_call relay_resume_read c,
    ground arith,
    inr (refl, record { live = v.live; counted = v.counted }),
  )
  | inr (b, rest, e) ↦
      let d = drain sends 0 c.list_response_write_buffer in
      let f =
        finish_writing-Flushed c (after_drain d c) d.is_error id r (
          after_drain-stream c d v (drain-Splits sends 0 c.list_response_write_buffer ok v.live)) in
      (f.after, ground (arith, f.runs), f.result)
]

stop_watching_keeps :
    (c : Client)
    → ((stop_watching c).relay ≡ c.relay) × ((stop_watching c).pending_write ≡ c.pending_write)
unfolding stop_watching
stop_watching_keeps c = elim (list_cases c.list_response_write_buffer) [
  | inl empty ↦ (ground arith, ground arith)
  | inr (f, rest, w) ↦ (ground arith, ground arith)
]

finish_writing_crashes :
    (c : Client) → c.relay ≡ none → c.pending_write < write_limit → finish_writing false c ≡ none
unfolding finish_writing
finish_writing_crashes c r low = let k = stop_watching_keeps c in ground (arith, k.0, k.1)

-- The descriptor of a client without a relay can be written to, fewer than 30000 bytes wait, and no
-- `send` fails: the call on the relay that is NULL, or the assertion, ends the program.
pub client_writecb_crashes :
    (sends : ℕ → SendResult) (c : Client)
    → c.relay ≡ none
    → c.pending_write < write_limit
    → (drain sends 0 c.list_response_write_buffer).is_error ≡ false
    → client_writecb sends c ≡ none
unfolding client_writecb finish_writing after_drain stop_watching
client_writecb_crashes sends c r low ok = elim (list_cases c.list_response_write_buffer) [
  | inl empty ↦ ground arith
  | inr (b, rest, e) ↦
      let d = drain sends 0 c.list_response_write_buffer in
      let crash = finish_writing_crashes (after_drain d c) r (omega arith) in
      ground (arith, e, ok, crash)
]
