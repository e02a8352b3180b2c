-- ===== src/RelayHttp2/Body/Stream.antt =====
-- relay_http2.c: the request body as a stream of bytes: what the client writes is what nghttp2
-- pulls, in order, once.
use h2_client_proxy.Base.{
  ℕ, true, Option, none, some, List, [], ◌∷◌, ◌++◌, ◌≡◌, ◌≢◌, refl, ap, sym, ◌∙◌, arith, append-nil,
  append_assoc, length, leb, if◌then◌else◌, take-append-drop, Bytes,
}
use h2_client_proxy.EpBuffer.{EpBuffer, ep_buffer_create}
use h2_client_proxy.EpBuffer.Stream.{
  unsent, pending, IsLive, AllLive, pending-append, AllLive-append,
}
use h2_client_proxy.RelayHttp2.Types.{
  World, update, emit, session_send, resume_data, status_request_sent,
}
use h2_client_proxy.RelayHttp2.Body.{relay_data_source_read_callback, relay_write_body}
use h2_client_proxy.RelayHttp2.Body.Copy.{relay_data_source_read_callback-pending}

-- What the client and nghttp2 do with the body of one relay: a piece is written, or at most so
-- many bytes are pulled.
pub data BodyStep : Type 0 where
  write : Bytes → BodyStep
  pull : ℕ → BodyStep

abbrev pub body_step : BodyStep → World → Option (Bytes × World)
body_step (write s) w = elim (relay_write_body s w) [ none ↦ none | some w' ↦ some ([], w') ]
body_step (pull n) w =
    let (result, out, relay') = relay_data_source_read_callback w.relay n in
    some (out, record w { relay = relay' })

-- The bytes pulled by a sequence of steps; `none` if an assertion fails.
unfoldable pub run_body : List BodyStep → World → Option (Bytes × World)
run_body [] w = some ([], w)
run_body (s ∷ ss) w = elim (body_step s w) [
  | none ↦ none
  | some (out, w') ↦ elim (run_body ss w') [
    | none ↦ none
    | some (more, w'') ↦ some (out ++ more, w'')
  ]
]

abbrev pub added_by : BodyStep → Bytes
added_by (write s) = s
added_by (pull n) = []

abbrev pub written : List BodyStep → Bytes
written [] = []
written (s ∷ ss) = added_by s ++ written ss

-- Every piece written has a byte.
abbrev pub IsNonempty : BodyStep → Type 0
IsNonempty (write s) = s ≢ []
IsNonempty (pull n) = Unit {0}

abbrev pub AllNonempty : List BodyStep → Type 0
AllNonempty [] = Unit {0}
AllNonempty (s ∷ ss) = IsNonempty s × AllNonempty ss

-- A step that succeeds keeps the stream: what it hands out and leaves is what was there and what
-- it adds.
record Keeps (w : World) (added : Bytes) (r : Option (Bytes × World)) : Type 0 where
  out : Bytes
  after : World
  runs : r ≡ some (out, after)
  stream : out ++ pending after.relay.list_write_buf ≡ pending w.relay.list_write_buf ++ added
  live : AllLive after.relay.list_write_buf
  session : after.relay.session ≡ w.relay.session

record Appends (s : Bytes) (w : World) : Type 0 where
  added : EpBuffer
  after : World
  runs : relay_write_body s w ≡ some after
  buffers : after.relay.list_write_buf ≡ w.relay.list_write_buf ++ added ∷ []
  holds : unsent added ≡ s
  live : IsLive added
  session : after.relay.session ≡ w.relay.session

relay_write_body-Appends : (s : Bytes) (w : World) → w.relay.session ≡ true → s ≢ [] → Appends s w
unfolding relay_write_body ep_buffer_create
relay_write_body-Appends [] w session ne = absurd (ne refl)
relay_write_body-Appends (c ∷ cs) w session ne =
    let b : EpBuffer = record { buf = c ∷ cs; len_total = length (c ∷ cs); len_sent = 0 } in
    let w' = update (λ r. record r { list_write_buf = r.list_write_buf ++ b ∷ [] }) w in
    record {
      added = b;
      after =
          if leb status_request_sent w'.relay.relay_status
          then emit session_send (emit (resume_data w'.relay.stream_id) w')
          else w';
      runs = ground arith;
      buffers = ground arith;
      holds = refl;
      live = omega arith;
      session = ground arith;
    }

write-Keeps :
    (s : Bytes) (w : World)
    → w.relay.session ≡ true
    → s ≢ []
    → AllLive w.relay.list_write_buf
    → Keeps w s (body_step (write s) w)
write-Keeps s w session ne a =
    let p = relay_write_body-Appends s w session ne in
    record {
      out = [];
      after = p.after;
      runs = rw (p.runs, body_step);
      stream =
          rw p.buffers
            (pending-append w.relay.list_write_buf (p.added ∷ []) ∙ rw append-nil (rw p.holds));
      live = rw p.buffers (AllLive-append w.relay.list_write_buf (p.added ∷ []) a (p.live, tt));
      session = p.session;
    }

pull-Keeps :
    (n : ℕ) (w : World) → AllLive w.relay.list_write_buf → Keeps w [] (body_step (pull n) w)
unfolding relay_data_source_read_callback
pull-Keeps n w a =
    let (copied, left, live, same) = relay_data_source_read_callback-pending w.relay n a in
    let (result, out, relay') = relay_data_source_read_callback w.relay n in
    record {
      out = out;
      after = record w { relay = relay' };
      runs = refl;
      stream = rw (copied, left, append-nil) (take-append-drop n (pending w.relay.list_write_buf));
      live = live;
      session = refl;
    }

step-Keeps :
    (s : BodyStep) (w : World)
    → w.relay.session ≡ true
    → AllLive w.relay.list_write_buf
    → IsNonempty s
    → Keeps w (added_by s) (body_step s w)
step-Keeps (write s) w session a ne = write-Keeps s w session ne a
step-Keeps (pull n) w session a ne = pull-Keeps n w a

-- Along any writes of pieces that are not empty, and pulls of any sizes, from a relay that has a
-- session and whose buffers all have bytes left, no assertion fails, and the bytes pulled followed by the bytes still
-- held are the bytes held at first followed by the bytes written: no byte of the body is lost,
-- repeated or moved.
pub run_body-stream :
    (ss : List BodyStep) (w : World)
    → w.relay.session ≡ true
    → AllLive w.relay.list_write_buf
    → AllNonempty ss
    → (out : Bytes) × (w' : World) × (run_body ss w ≡ some (out, w'))
      × (out ++ pending w'.relay.list_write_buf ≡ pending w.relay.list_write_buf ++ written ss)
unfolding run_body
run_body-stream [] w session a ne = ([], w, refl, sym (append-nil (pending w.relay.list_write_buf)))
run_body-stream (s ∷ ss) w session a ne =
    let k = step-Keeps s w session a ne.0 in
    let (more, last, runs, stream) = run_body-stream ss k.after (k.session ∙ session) k.live ne.1 in
    (
      k.out ++ more,
      last,
      rw (k.runs, run_body) (rw (runs, run_body)),
      append_assoc k.out more _
          ∙ ap (◌++◌ k.out) stream
          ∙ sym (append_assoc k.out (pending k.after.relay.list_write_buf) (written ss))
          ∙ ap (λ x. x ++ written ss) k.stream
          ∙ append_assoc (pending w.relay.list_write_buf) (added_by s) (written ss),
    )
