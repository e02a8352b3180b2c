-- ===== src/RelayHttp/Request/Reuse.antt =====
-- relay_http.c: the request that a relay sends, and the body behind it on a relay that is used again.
use h2_client_proxy.Base.{
  ℕ, Bool, true, false, Option, none, some, List, [], ◌∷◌, ◌++◌, map, ◌≡◌, refl, ap, sym,
  append-nil, ◌∙◌, length, ◌<◌, arith, append_assoc, Bytes, codes, c_str, str_case_eq,
  if◌then◌else◌,
}
use h2_client_proxy.Util.Format.{append_format-fits}
use h2_client_proxy.Header.{Header, Field, field_line}
use h2_client_proxy.Header.Render.{Fits, AllFit, render}
use h2_client_proxy.RelayHttp2.Types.{status_request_sent}
use h2_client_proxy.RelayHttp2.Request.{UrlParser}
use h2_client_proxy.RelayHttp.Types.{
  Relays, conn_write, emit, put, set_status, set_args, set_tmr_connected, set_idle,
}
use h2_client_proxy.RelayHttp.Pool.Keeps.{find_idle-IsIdle, assign_same}
use h2_client_proxy.RelayHttp.Pool.Create.{
  call_conn-open, woken, woken_at, take_out_at, relay_create_found,
}
use h2_client_proxy.RelayHttp.Request.{
  has_room, url_size, buf_size, target_of, sent_field, append_sent, first_line, request_text,
  start_request, send_text, relay_send_request, is_chunked_request,
}
use h2_client_proxy.RelayHttp.Pool.{relay_count_hash, find_idle, take_out, relay_create}
use h2_client_proxy.RelayHttp.Pool.Valid.{IsPool}
use h2_client_proxy.RelayHttp.Request.Wire.{
  Wrote, wire, wire-write, send_body, parts_text, send_body-Wrote,
}

append_sent-render :
    (fs : List Field) (buf : Bytes)
    → AllFit buf_size (map sent_field fs)
    → append_sent buf fs ≡ buf ++ render (map sent_field fs)
unfolding append_sent render
append_sent-render [] buf a = sym (append-nil buf)
append_sent-render (f ∷ fs) buf a =
    rw (append_format-fits buf buf_size (field_line (sent_field f)) a.0.0 a.0.1) (
      append_sent-render fs (buf ++ field_line (sent_field f)) a.1
      ∙ append_assoc buf (field_line (sent_field f)) _)

-- The lines of a request, "Proxy-Connection" renamed, and the empty line.
abbrev pub request_lines : Header → Bytes → Bytes
request_lines h target =
    first_line h.method target ++ (render (map sent_field h.list_headers) ++ codes "\r\n")

pub request_text-lines :
    (h : Header) (target : Bytes)
    → Fits buf_size (first_line h.method target)
    → AllFit buf_size (map sent_field h.list_headers)
    → request_text h target ≡ request_lines h target
unfolding request_text
request_text-lines h target r a =
    rw
      (
        append_format-fits [] buf_size (first_line h.method target) r.0 r.1,
        append_sent-render h.list_headers (first_line h.method target) a,
      )
      (append_assoc (first_line h.method target) (render (map sent_field h.list_headers))
        (codes "\r\n"))

start_at :
    (id : ℕ) (h : Header) (w : Relays)
    → (put id (start_request h (w.relay_at id)) w).relay_at id ≡ start_request h (w.relay_at id)
start_at id h w = assign_same w.relay_at id (start_request h (w.relay_at id))

start-conn :
    (id : ℕ) (h : Header) (w : Relays)
    → ((put id (start_request h (w.relay_at id)) w).relay_at id).conn ≡ (w.relay_at id).conn
unfolding start_request
start-conn id h w = ap (λ r. r.conn) (start_at id h w)

-- The relays after a request.
abbrev pub requested : ℕ → Header → Bytes → Relays → Relays
requested id h text w =
    let w1 = emit id (conn_write text) (put id (start_request h (w.relay_at id)) w) in
    put id (set_status status_request_sent (w1.relay_at id)) w1

send_text-run :
    (id : ℕ) (h : Header) (text : Bytes) (w : Relays)
    → (w.relay_at id).conn ≡ true
    → send_text id h text w ≡ some (requested id h (c_str text) w)
unfolding send_text
send_text-run id h text w c =
    let w1 = put id (start_request h (w.relay_at id)) w in
    rw (send_text, call_conn-open id (conn_write (c_str text)) w1 (start-conn id h w ∙ c)) refl

pub requested-wire :
    (id : ℕ) (h : Header) (text : Bytes) (w : Relays)
    → wire id (requested id h text w).calls ≡ wire id w.calls ++ text
requested-wire id h text w = wire-write id text (put id (start_request h (w.relay_at id)) w)

-- The relay of a request.
pub requested_at :
    (id : ℕ) (h : Header) (text : Bytes) (w : Relays)
    → (requested id h text w).relay_at id
      ≡ set_status status_request_sent (start_request h (w.relay_at id))
requested_at id h text w =
    let w1 = emit id (conn_write text) (put id (start_request h (w.relay_at id)) w) in
    assign_same w1.relay_at id (set_status status_request_sent (w1.relay_at id))
    ∙ ap (set_status status_request_sent) (start_at id h w)

module _ (parse_url : UrlParser) where
  pub send-run :
      (id : ℕ) (h : Header) (url : Bytes) (w : Relays)
      → str_case_eq h.method (codes "connect") ≡ false
      → h.url ≡ some url
      → (w.relay_at id).conn ≡ true
      → let target = target_of url (parse_url url false) in
        has_room target (request_text h target) ≡ true
        → relay_send_request parse_url id h w
          ≡ some (requested id h (c_str (request_text h (target_of url (parse_url url false)))) w)
  unfolding relay_send_request
  send-run id h url w m u c room =
      let text = λ (o : Bytes). request_text h (target_of o (parse_url o false)) in
      let fits = λ (o : Bytes). has_room (target_of o (parse_url o false)) (text o) in
      rw (relay_send_request, m)
        (ap
            (λ (o : Option Bytes). elim o as (λ x. Option Relays) [
              | none ↦ none
              | some x ↦ if fits x then send_text id h (text x) w else none
            ])
            u
          ∙ (ap (λ (b : Bool). if b then send_text id h (text url) w else none) room
              ∙ send_text-run id h (text url) w c))

  -- A request that is no CONNECT, with a URL, on a relay whose connection is open: if the target is
  -- below 1024 bytes, the first line and the line of each field fit a call of `append_format`, and all
  -- of them with the empty line are below the 20480 bytes of the buffer, then sending it is no crash, and
  -- what it adds to the wire is the first line, a line for each field in order, with
  -- Proxy-Connection renamed to Connection, and the empty line, up to the first 0 byte.
  pub relay_send_request-wire :
      (id : ℕ) (h : Header) (url : Bytes) (w : Relays)
      → str_case_eq h.method (codes "connect") ≡ false
      → h.url ≡ some url
      → (w.relay_at id).conn ≡ true
      → let target = target_of url (parse_url url false) in
        Fits buf_size (first_line h.method target)
        → AllFit buf_size (map sent_field h.list_headers)
        → length target < url_size
        → length (request_lines h target) < buf_size
        → (w' : Relays) × (relay_send_request parse_url id h w ≡ some w')
          × (wire id w'.calls ≡ wire id w.calls ++ c_str (request_lines h target))
          × ((w'.relay_at id).relay_status ≡ status_request_sent)
  unfolding set_status has_room
  relay_send_request-wire id h url w m u c r a short all =
      let target = target_of url (parse_url url false) in
      let text = c_str (request_text h target) in
      let same = request_text-lines h target r a in
      let room : has_room target (request_text h target) ≡ true =
        ground (arith, same, short, all) in
      (
        requested id h text w,
        send-run id h url w m u c room,
        requested-wire id h text w ∙ ap (λ t. wire id w.calls ++ c_str t) same,
        ap (λ r. r.relay_status) (requested_at id h text w),
      )

  -- A relay that was used for a body in chunks is found again for a request whose body does not
  -- come in chunks, and whose target and text have room in the arrays of relay_send_request: the request is sent and the parts of its body are still written as chunks.
  pub reused_chunks :
      (new : ℕ) (host : Bytes) (port args id : ℕ) (h : Header) (url : Bytes) (parts : List Bytes)
      (w : Relays)
      → IsPool w
      → find_idle host port w.relay_at (w.idle (relay_count_hash host)) ≡ some id
      → (w.relay_at id).is_chunk_post ≡ true
      → str_case_eq h.method (codes "connect") ≡ false
      → h.url ≡ some url
      → is_chunked_request h ≡ false
      → let target = target_of url (parse_url url false) in
        has_room target (request_text h target) ≡ true
        → (w1 : Relays) × (relay_create new host port args w ≡ some (id, w1))
          × ((w2 : Relays) × (relay_send_request parse_url id h w1 ≡ some w2)
              × Wrote id (parts_text true parts) w2 (send_body id parts w2))
  unfolding set_status start_request set_tmr_connected set_args set_idle
  reused_chunks new host port args id h url parts w v e chunk m u plain room =
      let hash = relay_count_hash host in
      let facts = find_idle-IsIdle host port hash w.relay_at (w.idle hash) id e (v.buckets hash) in
      let w0 = take_out hash id w in
      let w1 = woken id args w0 in
      let at1 =
        woken_at id args w0
        ∙ ap (λ r. set_tmr_connected true (set_args (some args) r)) (take_out_at hash id w) in
      let text = c_str (request_text h (target_of url (parse_url url false))) in
      let w2 = requested id h text w1 in
      let at2 =
        requested_at id h text w1
        ∙ ap (λ r. set_status status_request_sent (start_request h r)) at1 in
      let up : (w1.relay_at id).conn ≡ true = ap (λ r. r.conn) at1 ∙ facts.0.has_conn in
      (
        w1,
        relay_create_found new host port args id w e facts.0,
        (
          w2,
          send-run id h url w1 m u up room,
          send_body-Wrote id true parts w2 (ap (λ r. r.conn) at2 ∙ facts.0.has_conn) (
              ap (λ r. r.is_chunk_post) at2
              ∙ (ap (λ (c : Bool). if c then true else (w.relay_at id).is_chunk_post) plain
                  ∙ chunk)),
        ),
      )
