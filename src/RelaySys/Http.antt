-- ===== src/RelaySys/Http.antt =====
-- relay_http.c: `http_relay_sys`, the table of the relays over HTTP/1, and that it keeps the laws of
-- relay.h.
pub mod Written
use h2_client_proxy.Base.{
  same_some, ℕ, ◌≡◌, ◌≢◌, refl, ap, sym, ◌∙◌, map, length, ltb, ◌<◌, arith, Bool, true, false,
  Option, some, List, [], ◌∷◌, ◌++◌, append-nil, append_assoc, if◌then◌else◌, Bytes, codes, c_str,
  str_case_eq,
}
use h2_client_proxy.Header.{Header}
use h2_client_proxy.Header.Render.{Fits, AllFit}
use h2_client_proxy.RelayHttp2.Request.{UrlParser}
use h2_client_proxy.RelayHttp.Types.{HttpRelay, Relays, set_status}
use h2_client_proxy.RelayHttp.Pool.{relay_close}
use h2_client_proxy.RelayHttp.Request.{
  relay_send_request, relay_write_body, relay_complete_request, relay_suspend_read,
  relay_resume_read, is_chunked_request, request_text, target_of, start_request, has_room, url_size,
  buf_size, first_line, sent_field,
}
use h2_client_proxy.RelayHttp.Request.Wire.{
  wire, Wrote, part_text, end_text, relay_write_body-Wrote, relay_complete_request-Wrote,
}
use h2_client_proxy.RelayHttp.Request.Reuse.{
  request_text-lines, request_lines, requested, requested_at, requested-wire, send-run,
}
use h2_client_proxy.Client.Types.{Client, RelayCall}
use h2_client_proxy.Client.Response.{client_handle_relay_connected}
use h2_client_proxy.Client.Request.{parser_calls}
use h2_client_proxy.RelaySys.{RelaySys, RelayLaws, perform_all}
use h2_client_proxy.RelaySys.Forward.{client_forwards}
use h2_client_proxy.RelaySys.Calls.{buffered, later, AllNonempty, AllConnected, rest_of_body}

-- The parts of a body on the wire.
abbrev pub body_text : Bool → List Bytes → Bytes
body_text is_chunked [] = []
body_text is_chunked (b ∷ bs) = part_text is_chunked b ++ body_text is_chunked bs

body_text-append :
    (c : Bool) (a b : List Bytes) → body_text c (a ++ b) ≡ body_text c a ++ body_text c b
body_text-append c [] b = refl
body_text-append c (p ∷ ps) b =
    ap (λ x. part_text c p ++ x) (body_text-append c ps b)
    ∙ sym (append_assoc (part_text c p) (body_text c ps) (body_text c b))

-- A request with a URL that is no CONNECT, and whose target and lines have room in their arrays.
pub record IsPlain (parse_url : UrlParser) (h : Header) : Type 0 where
  pub url : Bytes
  pub url_is : h.url ≡ some url
  pub no_connect : str_case_eq h.method (codes "connect") ≡ false
  pub line_fits : Fits buf_size (first_line h.method (target_of url (parse_url url false)))
  pub all_fit : AllFit buf_size (map sent_field h.list_headers)
  pub target_fits : length (target_of url (parse_url url false)) < url_size
  pub text_fits : length (request_lines h (target_of url (parse_url url false))) < buf_size

-- A relay whose connection is open and that wrote nothing yet.
pub record IsFresh (id : ℕ) (w : Relays) : Type 0 where
  pub up : (w.relay_at id).conn ≡ true
  pub no_chunks : (w.relay_at id).is_chunk_post ≡ false
  pub no_bytes : wire id w.calls ≡ []

-- The relay with this address.
module _ (parse_url : UrlParser) (id : ℕ) where
  abbrev pub http_relay_sys : RelaySys
  http_relay_sys = record {
    Relay = Relays;
    send_request = relay_send_request parse_url id;
    write_body = relay_write_body id;
    complete_request = relay_complete_request id;
    close = relay_close id;
    suspend_read = relay_suspend_read id;
    resume_read = relay_resume_read id;
  }

  -- The bytes of a request and its body.
  abbrev pub message_text : Header → Bytes → List Bytes → Bool → Bytes
  message_text h url parts is_complete =
      c_str (request_lines h (target_of url (parse_url url false)))
      ++ (body_text (is_chunked_request h) parts
          ++ (if is_complete then end_text (is_chunked_request h) else []))

  -- A relay that wrote this, and nothing else.
  pub record Carries (h : Header) (parts : List Bytes) (is_complete : Bool) (w : Relays)
      : Type 0 where
    pub url : Bytes
    pub url_is : h.url ≡ some url
    pub up : (w.relay_at id).conn ≡ true
    pub mode : (w.relay_at id).is_chunk_post ≡ is_chunked_request h
    pub on_wire : wire id w.calls ≡ message_text h url parts is_complete

  start-chunks :
      (h : Header) (r : HttpRelay)
      → r.is_chunk_post ≡ false
      → (start_request h r).is_chunk_post ≡ is_chunked_request h
  unfolding start_request
  start-chunks h r e =
      ap (λ (c : Bool). if is_chunked_request h then true else c) e ∙ flag (is_chunked_request h)
    where
      flag : (c : Bool) → (if c then true else false) ≡ c
      flag true = refl
      flag false = refl

  start-up : (h : Header) (r : HttpRelay) → (start_request h r).conn ≡ r.conn
  unfolding start_request
  start-up h r = refl

  pub relay_send_request-Carries :
      (h : Header) (w : Relays)
      → IsPlain parse_url h
      → IsFresh id w
      → (w' : Relays) × (relay_send_request parse_url id h w ≡ some w') × Carries h [] false w'
  unfolding set_status has_room
  relay_send_request-Carries h w p f =
      let target = target_of p.url (parse_url p.url false) in
      let same = request_text-lines h target p.line_fits p.all_fit in
      let text = c_str (request_lines h target) in
      let at = requested_at id h text w in
      let room : has_room target (request_text h target) ≡ true =
        ground (arith, same, p.target_fits, p.text_fits) in
      (
        requested id h text w,
        send-run parse_url id h p.url w p.no_connect p.url_is f.up room
            ∙ ap (λ t. some (requested id h (c_str t) w)) same,
        record {
          url = p.url;
          url_is = p.url_is;
          up = ap (λ r. r.conn) at ∙ start-up h (w.relay_at id) ∙ f.up;
          mode = ap (λ r. r.is_chunk_post) at ∙ start-chunks h (w.relay_at id) f.no_chunks;
          on_wire =
              requested-wire id h text w ∙ ap (λ x. x ++ text) f.no_bytes ∙ sym (append-nil text);
        },
      )

  ended_text :
      (h : Header) (url : Bytes) (parts : List Bytes)
      → message_text h url parts false ++ end_text (is_chunked_request h)
        ≡ message_text h url parts true
  ended_text h url parts =
      let chunked = is_chunked_request h in
      let text = c_str (request_lines h (target_of url (parse_url url false))) in
      let body = body_text chunked parts in
      append_assoc text (body ++ []) (end_text chunked)
      ∙ ap (λ x. text ++ (x ++ end_text chunked)) (append-nil body)

  extended_text :
      (h : Header) (url : Bytes) (parts : List Bytes) (bytes : Bytes)
      → message_text h url parts false ++ part_text (is_chunked_request h) bytes
        ≡ message_text h url (parts ++ bytes ∷ []) false
  extended_text h url parts bytes =
      let chunked = is_chunked_request h in
      let text = c_str (request_lines h (target_of url (parse_url url false))) in
      let body = body_text chunked parts in
      let part = part_text chunked bytes in
      append_assoc text (body ++ []) part
      ∙ ap (λ x. text ++ (x ++ part)) (append-nil body)
      ∙ ap (λ x. text ++ (body ++ x)) (sym (append-nil part))
      ∙ ap (λ x. text ++ x)
          (sym (body_text-append chunked parts (bytes ∷ []))
            ∙ sym (append-nil (body_text chunked (parts ++ bytes ∷ []))))

  -- A write behind what was there.
  continued :
      (h : Header) (parts more : List Bytes) (is_complete : Bool) (added : Bytes) (w : Relays)
      (m : Option Relays)
      → Carries h parts false w
      → Wrote id added w m
      → ((url : Bytes)
          → message_text h url parts false ++ added ≡ message_text h url more is_complete)
      → (w' : Relays) × (m ≡ some w') × Carries h more is_complete w'
  continued h parts more is_complete added w m c x text = (
    x.after,
    x.is_some,
    record {
      url = c.url;
      url_is = c.url_is;
      up = ap (λ f. (f id).conn) x.same_relays ∙ c.up;
      mode = ap (λ f. (f id).is_chunk_post) x.same_relays ∙ c.mode;
      on_wire = x.on_wire ∙ ap (λ y. y ++ added) c.on_wire ∙ text c.url;
    },
  )

  pub relay_write_body-Carries :
      (h : Header) (parts : List Bytes) (bytes : Bytes) (w : Relays)
      → bytes ≢ []
      → Carries h parts false w
      → (w' : Relays) × (relay_write_body id bytes w ≡ some w')
        × Carries h (parts ++ bytes ∷ []) false w'
  relay_write_body-Carries h parts bytes w ne c =
      let chunked = is_chunked_request h in
      let added = part_text chunked bytes in
      continued h parts (parts ++ bytes ∷ []) false added w (relay_write_body id bytes w) c
        (relay_write_body-Wrote id chunked bytes w (c.up, c.mode))
        (λ url. extended_text h url parts bytes)

  pub relay_complete_request-Carries :
      (h : Header) (parts : List Bytes) (w : Relays)
      → Carries h parts false w
      → (w' : Relays) × (relay_complete_request id w ≡ some w') × Carries h parts true w'
  relay_complete_request-Carries h parts w c =
      let chunked = is_chunked_request h in
      continued h parts parts true (end_text chunked) w (relay_complete_request id w) c
        (relay_complete_request-Wrote id chunked w (c.up, c.mode)) (λ url. ended_text h url parts)

  -- The relay passes a request on as its text, the parts of its body, as chunks if the header says
  -- so, and the last chunk.
  abbrev pub http_relay_sys-laws : RelayLaws http_relay_sys
  http_relay_sys-laws = record {
    Accepts = IsPlain parse_url;
    Connected = IsFresh id;
    Told = Carries;
    sends = relay_send_request-Carries;
    writes = relay_write_body-Carries;
    completes = relay_complete_request-Carries;
  }
