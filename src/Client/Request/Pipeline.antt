-- ===== src/Client/Request/Pipeline.antt =====
-- client.c: what becomes of requests that come in a row.
use h2_client_proxy.Base.{
  ℕ, ◌≡◌, some, [], ◌∷◌, ◌++◌, refl, arith, append_assoc, Bytes, List, map, option_cases, inl, inr,
  ap, sym, ◌∙◌, append-nil, ltb, false,
}
use h2_client_proxy.Base.Int.{negsuc}
use h2_client_proxy.Ep.Types.{no_events}
use h2_client_proxy.Ep.Watch.{detect}
use h2_client_proxy.Header.{
  Header, header_append_complete, header_new, header_set_url, header_set_method,
  header_append_field,
}
use h2_client_proxy.Header.Reassembly.{
  Piece, of_field, of_value, append_pieces, append_piece_of, Pair, pieces, AllText, all_joined,
  read_header-pieces,
}
use h2_client_proxy.Client.Request.{
  header_append_value, ParserCall, client_header_fieldcb, client_header_valuecb, on_header,
  client_msg_begin, client_url_complete, client_headers_completecb, start_request,
  client_message_completecb, msg_begin, url_complete, headers_complete, message_complete,
  parser_call, client_bodycb, body_part, parser_calls,
}
use h2_client_proxy.Client.Request.Reading.{
  piece_calls, read_header-parts, complete-method, request_of,
}
use h2_client_proxy.RelayHttp2.Types.{status_connected}
use h2_client_proxy.RelayHttp2.Request.{UrlParser}
use h2_client_proxy.Client.Types.{relay_complete_request, Client, relay_write_body}

-- A client that reads the header of its next request.
abbrev expecting : Header → Client → Client
expecting h c = record c { pending_request_header = some h }

-- The callbacks for the parts of a body while the relay has the status `s`, with others behind them.
abbrev pub body_calls : ℕ → List Bytes → List ParserCall → List ParserCall
body_calls s [] rest = rest
body_calls s (x ∷ parts) rest = body_part s x ∷ body_calls s parts rest

module _ (parse_url : UrlParser) where
  pending_run :
      (ps : List Piece) (rest : List ParserCall) (c : Client) (h h1 : Header)
      → append_pieces h ps ≡ some h1
      → parser_calls parse_url (piece_calls ps rest) (expecting h c)
        ≡ parser_calls parse_url rest (expecting h1 c)
  unfolding append_pieces append_piece_of parser_calls parser_call client_header_fieldcb
      client_header_valuecb on_header
  pending_run [] rest c h h1 e =
      ap (λ k. parser_calls parse_url rest (expecting k c)) (ground arith)
  pending_run (of_field s ∷ ps) rest c h h1 e = elim (option_cases (header_append_field h s)) [
    | inl n ↦ ground (arith, n)
    | inr (k, f) ↦
        rw (parser_calls, parser_call, f) (pending_run ps rest c k h1 (ground (arith, f)))
  ]
  pending_run (of_value s ∷ ps) rest c h h1 e = pending_run ps rest c (header_append_value h s) h1 e

  pending_complete :
      (id : ℕ) (method : Bytes) (h1 h2 : Header) (c : Client)
      → header_append_complete (header_set_method h1 method) ≡ some h2
      → client_headers_completecb parse_url id method (expecting h1 c)
        ≡ some (record (expecting h2 c) { file = detect no_events (negsuc 0) c.file })
  unfolding client_headers_completecb on_header start_request
  pending_complete id method h1 h2 c e = rw (client_headers_completecb, on_header, e) refl

  bodies_run :
      (s id : ℕ) (parts : List Bytes) (rest : List ParserCall) (c : Client)
      → c.relay ≡ some id
      → ltb s status_connected ≡ false
      → parser_calls parse_url (body_calls s parts rest) c
        ≡ parser_calls parse_url rest (record c { calls = c.calls ++ map relay_write_body parts })
  unfolding parser_calls parser_call client_bodycb
  bodies_run s id [] rest c r late =
      ap (λ k. parser_calls parse_url rest (record c { calls = k })) (sym (append-nil c.calls))
  bodies_run s id (x ∷ parts) rest c r late =
      let next : Client = record c { calls = c.calls ++ relay_write_body x ∷ [] } in
      let here : client_bodycb s x c ≡ some next = ground arith in
      rw (parser_calls, parser_call, here)
        (bodies_run s id parts rest next r late
          ∙ ap (λ k. parser_calls parse_url rest (record c { calls = k }))
              (append_assoc c.calls (relay_write_body x ∷ []) (map relay_write_body parts)))

  -- While a relay that is connected works on the first request of a client, a second request comes,
  -- with a header in whatever pieces and a body in any parts, and the status of the relay is that of
  -- a connected one or behind it: every part of the body goes to the relay of the first request,
  -- which is told that its request is complete, and only the header of the second request is kept
  -- for its own relay.
  pub next_body_misdirected :
      (s id id' : ℕ) (url method : Bytes) (ps : List Pair) (parts : List Bytes) (first : Header)
      (c : Client)
      → AllText ps
      → c.relay ≡ some id
      → c.request_header ≡ some first
      → ltb s status_connected ≡ false
      → (c' : Client) × (parser_calls parse_url
            (msg_begin
              ∷ url_complete url
              ∷ piece_calls
                  (pieces ps)
                  (headers_complete id' method ∷ body_calls s parts (message_complete ∷ [])))
            c
          ≡ some c')
        × (c'.calls ≡ c.calls ++ (map relay_write_body parts ++ relay_complete_request ∷ []))
        × (c'.relay ≡ some id)
        × (c'.pending_request_header ≡ some (request_of parse_url url method ps))
  unfolding parser_calls parser_call client_msg_begin on_header client_url_complete
      client_message_completecb header_new header_set_url header_set_method
  next_body_misdirected s id id' url method ps parts first c t r q late =
      let h0 = header_set_url header_new url in
      let h2 = record h0 { list_headers = all_joined ps } in
      let tail = body_calls s parts (message_complete ∷ []) in
      let p = read_header-parts h0 h2 (pieces ps) (
        read_header-pieces ps h0 (record { no_field = refl; no_value = refl; not_value = refl })
          t) in
      let done = complete-method p.0 h2 method p.2 in
      let c1 : Client = record c {
        file = detect no_events (negsuc 0) c.file;
        pending_request_header = some (request_of parse_url url method ps);
      } in
      let c2 : Client = record c1 { calls = c.calls ++ map relay_write_body parts } in
      let c3 : Client = record c2 { calls = c2.calls ++ relay_complete_request ∷ [] } in
      let begun : client_msg_begin c ≡ some (expecting header_new c) = ground arith in
      let last : client_message_completecb c2 ≡ some c3 = ground arith in
      (
        c3,
        rw (parser_calls, parser_call, begun)
            (pending_run (pieces ps) (headers_complete id' method ∷ tail) c h0 p.0 p.1
              ∙ rw
                  (
                    parser_calls,
                    parser_call,
                    pending_complete id' method p.0 (request_of parse_url url method ps) c done,
                  )
                  (bodies_run s id parts (message_complete ∷ []) c1 r late
                    ∙ rw (parser_calls, parser_call, last) refl)),
        append_assoc c.calls (map relay_write_body parts) (relay_complete_request ∷ []),
        r,
        refl,
      )
