-- ===== src/RelaySys/Http2.antt =====
-- relay_http2.c: `http2_relay_sys`, the table of the relays over HTTP/2, and that it keeps the laws of
-- relay.h. What nghttp2 pulls of the body while it sends is left out: the bytes stay in the list.
use h2_client_proxy.Base.{
  arith, ℕ, ◌≡◌, ◌≢◌, refl, ap, sym, ◌∙◌, Bool, true, false, Option, none, some, List, [], ◌∷◌,
  ◌++◌, append-nil, append_assoc, leb, length, if◌then◌else◌, Bytes, codes, inl, inr, Bool-cases,
}
use h2_client_proxy.Header.{Header}
use h2_client_proxy.EpBuffer.{EpBuffer, ep_buffer_create}
use h2_client_proxy.EpBuffer.Stream.{pending, AllLive, pending-append, AllLive-append}
use h2_client_proxy.RelayHttp2.Types.{
  World, Http2Relay, Call, Nv, update, emit, submit_request, submit_window_update, session_send,
  resume_data, submit_rst_stream, set_user_data, timer_add, timer_del, timer_free,
  status_request_sent,
}
use h2_client_proxy.RelayHttp2.Request.{
  fits_arrays, UrlParser, relay_send_request, request_nvs, is_method, has_provider,
}
use h2_client_proxy.RelayHttp2.Body.{relay_write_body, relay_complete_request}
use h2_client_proxy.RelayHttp2.Lifecycle.{relay_close, relay_suspend_read, relay_resume_read}
use h2_client_proxy.RelaySys.{RelaySys, RelayLaws}

-- The header blocks of the requests that were submitted.
unfoldable pub submitted : List Call → List (List Nv)
submitted [] = []
submitted (submit_request nvs has_body ∷ cs) = nvs ∷ submitted cs
submitted (submit_window_update stream n ∷ cs) = submitted cs
submitted (session_send ∷ cs) = submitted cs
submitted (resume_data stream ∷ cs) = submitted cs
submitted (submit_rst_stream stream ∷ cs) = submitted cs
submitted (set_user_data stream is_set ∷ cs) = submitted cs
submitted (timer_add ∷ cs) = submitted cs
submitted (timer_del ∷ cs) = submitted cs
submitted (timer_free ∷ cs) = submitted cs

submitted-append : (a b : List Call) → submitted (a ++ b) ≡ submitted a ++ submitted b
unfolding submitted
submitted-append [] b = refl
submitted-append (submit_request nvs has_body ∷ cs) b = ap (λ x. nvs ∷ x) (submitted-append cs b)
submitted-append (submit_window_update stream n ∷ cs) b = submitted-append cs b
submitted-append (session_send ∷ cs) b = submitted-append cs b
submitted-append (resume_data stream ∷ cs) b = submitted-append cs b
submitted-append (submit_rst_stream stream ∷ cs) b = submitted-append cs b
submitted-append (set_user_data stream is_set ∷ cs) b = submitted-append cs b
submitted-append (timer_add ∷ cs) b = submitted-append cs b
submitted-append (timer_del ∷ cs) b = submitted-append cs b
submitted-append (timer_free ∷ cs) b = submitted-append cs b

-- A call that submits no request.
silent :
    (cs : List Call) (c : Call) → submitted (c ∷ []) ≡ [] → submitted (cs ++ c ∷ []) ≡ submitted cs
silent cs c e =
    submitted-append cs (c ∷ []) ∙ ap (λ x. submitted cs ++ x) e ∙ append-nil (submitted cs)

-- The bytes of the parts of a body.
abbrev pub joined : List Bytes → Bytes
joined [] = []
joined (b ∷ bs) = b ++ joined bs

joined-append : (a b : List Bytes) → joined (a ++ b) ≡ joined a ++ joined b
joined-append [] b = refl
joined-append (p ∷ ps) b =
    ap (λ x. p ++ x) (joined-append ps b) ∙ sym (append_assoc p (joined ps) (joined b))

-- A request with a URL, whose parts and entries have room in their arrays.
pub record IsSendable (parse_url : UrlParser) (h : Header) : Type 0 where
  pub url : Bytes
  pub url_is : h.url ≡ some url
  pub room : fits_arrays h url (parse_url url (is_method h (codes "connect"))) ≡ true

-- A relay that is new: it has a session, it holds no body and submitted nothing, and may be told of the end of the
-- request already.
pub record IsNew (is_complete : Bool) (w : World) : Type 0 where
  pub session : w.relay.session ≡ true
  pub no_body : w.relay.list_write_buf ≡ []
  pub end : w.relay.is_request_complete ≡ is_complete
  pub no_request : submitted w.calls ≡ []

-- With the stream that nghttp2 gives the request, and the bytes that came on it since the last
-- window update.
module _ (parse_url : UrlParser) (id received : ℕ) where
  abbrev pub http2_relay_sys : RelaySys
  http2_relay_sys = record {
    Relay = World;
    send_request = λ h w. relay_send_request parse_url h id w;
    write_body = relay_write_body;
    complete_request = λ w. some (relay_complete_request w);
    close = relay_close;
    suspend_read = λ w. some (relay_suspend_read w);
    resume_read = relay_resume_read received;
  }

  -- The header block of a request.
  abbrev pub block_of : Header → Bytes → List Nv
  block_of h url = request_nvs h url (parse_url url (is_method h (codes "connect")))

  -- A relay that submitted one request, and whose list holds the bytes of the body.
  pub record Passes (h : Header) (parts : List Bytes) (is_complete : Bool) (w : World)
      : Type 0 where
    pub url : Bytes
    pub url_is : h.url ≡ some url
    pub session : w.relay.session ≡ true
    pub request : submitted w.calls ≡ block_of h url ∷ []
    pub body : pending w.relay.list_write_buf ≡ joined parts
    pub live : AllLive w.relay.list_write_buf
    pub end : w.relay.is_request_complete ≡ is_complete

  pub relay_send_request-Passes :
      (is_complete : Bool) (h : Header) (w : World)
      → IsSendable parse_url h
      → IsNew is_complete w
      → (w' : World) × (relay_send_request parse_url h id w ≡ some w') × Passes h [] is_complete w'
  unfolding relay_send_request submitted
  relay_send_request-Passes is_complete h w p new =
      let url = p.url in
      let sent : Bytes → World = λ x.
        let u = parse_url x (is_method h (codes "connect")) in
        let w1 = emit (submit_request (request_nvs h x u) (has_provider h)) w in
        let w2 = update (λ r. record r { request_header = some h; stream_id = id }) w1 in
        let w3 = emit session_send (emit (set_user_data id true) w2) in
        update (λ r. record r { relay_status = status_request_sent }) w3 in
      let submit = submit_request (block_of h url) (has_provider h) in
      (
        sent url,
        ap
              (λ (o : Option Bytes). elim o as (λ _. Option World) [
                | none ↦ none
                | some x ↦
                    if fits_arrays h x (parse_url x (is_method h (codes "connect")))
                    then some (sent x)
                    else none
              ])
              p.url_is
            ∙ ap (λ (b : Bool). if b then some (sent url) else none) p.room,
        record {
          url = url;
          url_is = p.url_is;
          session = new.session;
          request =
              silent ((w.calls ++ submit ∷ []) ++ set_user_data id true ∷ []) session_send refl
              ∙ silent (w.calls ++ submit ∷ []) (set_user_data id true) refl
              ∙ submitted-append w.calls (submit ∷ [])
              ∙ ap (λ x. x ++ submitted (submit ∷ [])) new.no_request;
          body = ap pending new.no_body;
          live = rw (new.no_body) tt;
          end = new.end;
        },
      )

  -- The relay with another buffer.
  abbrev with_buffer : ℕ → Bytes → World → World
  with_buffer c cs w =
      let b : EpBuffer = record { buf = c ∷ cs; len_total = length (c ∷ cs); len_sent = 0 } in
      update (λ r. record r { list_write_buf = r.list_write_buf ++ b ∷ [] }) w

  written-Passes :
      (is_complete : Bool) (h : Header) (parts : List Bytes) (c : ℕ) (cs : Bytes) (w x : World)
      → Passes h parts is_complete w
      → x.relay ≡ (with_buffer c cs w).relay
      → submitted x.calls ≡ submitted w.calls
      → Passes h (parts ++ (c ∷ cs) ∷ []) is_complete x
  written-Passes is_complete h parts c cs w x p same calls =
      let b : EpBuffer = record { buf = c ∷ cs; len_total = length (c ∷ cs); len_sent = 0 } in
      let live : AllLive (b ∷ []) = (record { total = refl; left = omega arith }, tt) in
      record {
        url = p.url;
        url_is = p.url_is;
        session = ap (λ (r : Http2Relay). r.session) same ∙ p.session;
        request = calls ∙ p.request;
        body =
            ap (λ (r : Http2Relay). pending r.list_write_buf) same
            ∙ pending-append w.relay.list_write_buf (b ∷ [])
            ∙ ap (λ y. y ++ joined ((c ∷ cs) ∷ [])) p.body
            ∙ sym (joined-append parts ((c ∷ cs) ∷ []));
        live = rw (same) (AllLive-append w.relay.list_write_buf (b ∷ []) p.live live);
        end = ap (λ (r : Http2Relay). r.is_request_complete) same ∙ p.end;
      }

  pub relay_write_body-Passes :
      (is_complete : Bool) (h : Header) (parts : List Bytes) (bytes : Bytes) (w : World)
      → bytes ≢ []
      → Passes h parts is_complete w
      → (w' : World) × (relay_write_body bytes w ≡ some w')
        × Passes h (parts ++ bytes ∷ []) is_complete w'
  unfolding relay_write_body ep_buffer_create submitted
  relay_write_body-Passes is_complete h parts [] w ne p = absurd (ne refl)
  relay_write_body-Passes is_complete h parts (c ∷ cs) w ne p =
      let w1 = with_buffer c cs w in
      let resume = resume_data w1.relay.stream_id in
      let w2 = emit session_send (emit resume w1) in
      let is_sent = leb status_request_sent w1.relay.relay_status in
      let result : Bool → Option World = λ b. if b then some w2 else some w1 in
      let open_session : relay_write_body (c ∷ cs) w ≡ result is_sent = ground (arith, p.session) in
      elim (Bool-cases is_sent) [
        | inl t ↦ (
          w2,
          open_session ∙ ap result t,
          written-Passes is_complete h parts c cs w w2 p refl
              (silent (w.calls ++ resume ∷ []) session_send refl ∙ silent w.calls resume refl),
        )
        | inr t ↦ (
          w1,
          open_session ∙ ap result t,
          written-Passes is_complete h parts c cs w w1 p refl refl,
        )
      ]

  pub relay_complete_request-Passes :
      (h : Header) (parts : List Bytes) (w : World)
      → Passes h parts false w
      → (w' : World) × (some (relay_complete_request w) ≡ some w') × Passes h parts true w'
  unfolding relay_complete_request
  relay_complete_request-Passes h parts w p = (
    relay_complete_request w,
    refl,
    record {
      url = p.url;
      url_is = p.url_is;
      session = p.session;
      request = p.request;
      body = p.body;
      live = p.live;
      end = refl;
    },
  )

  -- The relay passes a request on as one header block that is submitted, and its body as the bytes
  -- that wait for nghttp2.
  abbrev pub http2_relay_sys-laws : RelayLaws http2_relay_sys
  http2_relay_sys-laws = record {
    Accepts = IsSendable parse_url;
    Connected = IsNew false;
    Told = Passes;
    sends = relay_send_request-Passes false;
    writes = relay_write_body-Passes false;
    completes = relay_complete_request-Passes;
  }
