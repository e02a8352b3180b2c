-- ===== src/RelaySys/Calls.antt =====
-- client.c: the calls that a client makes of its relay when it is connected, and for the rest of the
-- body.
use h2_client_proxy.Base.{
  arith, ℕ, ◌≡◌, ◌≢◌, ◌≤◌, refl, ap, sym, ◌∙◌, Option, none, some, List, [], ◌∷◌, ◌++◌,
  append_assoc, append-nil, Bytes,
}
use h2_client_proxy.Base.Int.{negsuc}
use h2_client_proxy.Ep.Types.{ep_read}
use h2_client_proxy.Ep.Watch.{detect}
use h2_client_proxy.EpBuffer.{EpBuffer}
use h2_client_proxy.RelayHttp2.Types.{status_connected}
use h2_client_proxy.RelayHttp2.Request.{UrlParser}
use h2_client_proxy.Client.Types.{
  record_call, Client, RelayCall, relay_send_request, relay_write_body, relay_complete_request,
}
use h2_client_proxy.Client.Response.{write_bodies, client_handle_relay_connected}
use h2_client_proxy.Client.Request.{
  ParserCall, body_part, message_complete, parser_call, parser_calls, client_bodycb,
  client_message_completecb,
}

-- The parts of a body that are buffered, and those that come later with the status of the relay.
abbrev pub buffered : List EpBuffer → List Bytes
buffered [] = []
buffered (b ∷ bs) = b.buf ∷ buffered bs

abbrev pub later : List (ℕ × Bytes) → List Bytes
later [] = []
later ((status, bytes) ∷ ps) = bytes ∷ later ps

abbrev pub AllNonempty : List Bytes → Type 0
AllNonempty [] = Unit {0}
AllNonempty (b ∷ bs) = (b ≢ []) × AllNonempty bs

-- The relay is connected when a part comes.
abbrev pub AllConnected : List (ℕ × Bytes) → Type 0
AllConnected [] = Unit {0}
AllConnected ((status, bytes) ∷ ps) = (status_connected ≤ status) × AllConnected ps

-- What the parser calls for the rest of a request.
abbrev pub rest_of_body : List (ℕ × Bytes) → List ParserCall
rest_of_body [] = message_complete ∷ []
rest_of_body ((status, bytes) ∷ ps) = body_part status bytes ∷ rest_of_body ps

-- The calls for parts of a body.
abbrev pub writes_of : List Bytes → List RelayCall
writes_of [] = []
writes_of (b ∷ bs) = relay_write_body b ∷ writes_of bs

write_bodies-calls :
    (bs : List EpBuffer) (c : Client)
    → ((write_bodies bs c).calls ≡ c.calls ++ writes_of (buffered bs))
      × ((write_bodies bs c).relay ≡ c.relay)
unfolding write_bodies
write_bodies-calls [] c = (sym (append-nil c.calls), refl)
write_bodies-calls (b ∷ bs) c =
    let c1 = record c { calls = c.calls ++ relay_write_body b.buf ∷ [] } in
    let w = write_bodies-calls bs c1 in
    (w.0 ∙ append_assoc c.calls (relay_write_body b.buf ∷ []) (writes_of (buffered bs)), w.1)

-- What a client did: the calls that it made, and its relay is still there.
pub record Made (m : Option Client) (c : Client) (id : ℕ) (made : List RelayCall) : Type 0 where
  pub after : Client
  pub runs : m ≡ some after
  pub calls : after.calls ≡ c.calls ++ made
  pub relay : after.relay ≡ some id

pub connected-Made :
    (c : Client) (id : ℕ)
    → c.relay ≡ some id
    → Made
        (client_handle_relay_connected c)
        c
        id
        (relay_send_request c.request_header ∷ writes_of (buffered c.list_request_body_buffer))
unfolding client_handle_relay_connected
connected-Made c id e =
    let c1 = record c { file = detect ep_read (negsuc 0) c.file } in
    let c2 = record_call (relay_send_request c.request_header) c1 in
    let bufs = c.list_request_body_buffer in
    let w = write_bodies-calls bufs c2 in
    let after = record (write_bodies bufs c2) { list_request_body_buffer = [] } in
    record {
      after = after;
      runs =
          ap
            (λ (o : Option ℕ). elim o as (λ _. Option Client) [ none ↦ none | some _ ↦ some after ])
            e;
      calls =
          w.0
          ∙ append_assoc c.calls (relay_send_request c.request_header ∷ [])
              (writes_of (buffered bufs));
      relay = w.1 ∙ e;
    }

body_run :
    (status : ℕ) (bytes : Bytes) (c : Client) (id : ℕ)
    → status_connected ≤ status
    → c.relay ≡ some id
    → client_bodycb status bytes c ≡ some (record_call (relay_write_body bytes) c)
unfolding client_bodycb
body_run status bytes c id up e = ground arith

pub complete_run :
    (c : Client) (id : ℕ)
    → c.relay ≡ some id
    → client_message_completecb c ≡ some (record_call relay_complete_request c)
unfolding client_message_completecb
complete_run c id e = ground arith

pub then-Made :
    (m : Option Client) (f : Client → Option Client) (c c1 : Client) (id : ℕ) (call : RelayCall)
    (made : List RelayCall)
    → m ≡ some c1
    → c1.calls ≡ c.calls ++ call ∷ []
    → Made (f c1) c1 id made
    → Made (elim m [ none ↦ none | some x ↦ f x ]) c id (call ∷ made)
then-Made m f c c1 id call made e calls k = record {
  after = k.after;
  runs =
      ap (λ (o : Option Client). elim o as (λ _. Option Client) [ none ↦ none | some x ↦ f x ]) e
      ∙ k.runs;
  calls = k.calls ∙ ap (λ x. x ++ made) calls ∙ append_assoc c.calls (call ∷ []) made;
  relay = k.relay;
}

module _ (parse_url : UrlParser) where
  pub rest-Made :
      (ps : List (ℕ × Bytes)) (c : Client) (id : ℕ)
      → AllConnected ps
      → c.relay ≡ some id
      → Made
          (parser_calls parse_url (rest_of_body ps) c)
          c
          id
          (writes_of (later ps) ++ relay_complete_request ∷ [])
  unfolding parser_calls parser_call client_bodycb client_message_completecb
  rest-Made [] c id up e =
      let c1 = record_call relay_complete_request c in
      then-Made (client_message_completecb c) (parser_calls parse_url []) c c1 id
        relay_complete_request [] (complete_run c id e) refl
        (record { after = c1; runs = refl; calls = sym (append-nil c1.calls); relay = e })
  rest-Made ((status, bytes) ∷ ps) c id up e =
      let c1 = record_call (relay_write_body bytes) c in
      then-Made (client_bodycb status bytes c) (parser_calls parse_url (rest_of_body ps)) c c1 id
        (relay_write_body bytes) (writes_of (later ps) ++ relay_complete_request ∷ [])
        (body_run status bytes c id up.0 e) refl (rest-Made ps c1 id up.1 e)
