-- ===== src/Client/Request/Reading.antt =====
-- client.c: what a new client makes of its first request, in whatever pieces the parser reads it.
use h2_client_proxy.Base.{
  option_cases, inl, inr, ℕ, ◌≡◌, none, some, List, [], ◌∷◌, ◌++◌, refl, ap, ◌∙◌, arith, Bytes,
  c_str, take,
}
use h2_client_proxy.Base.Int.{negsuc}
use h2_client_proxy.Ep.Types.{no_events}
use h2_client_proxy.Ep.Watch.{detect}
use h2_client_proxy.Header.{
  Header, header_new, header_set_url, header_set_method, header_append_complete,
  header_append_field,
}
use h2_client_proxy.Header.Reassembly.{
  Piece, of_field, of_value, append_pieces, append_piece_of, read_header, Pair, pieces, AllText,
  all_joined, read_header-pieces,
}
use h2_client_proxy.RelayHttp2.Request.{UrlParser}
use h2_client_proxy.Client.Types.{Client, client_handle_fd, relay_create}
use h2_client_proxy.Client.Response.{create_relay, header_get_host, header_get_host_port}
use h2_client_proxy.Client.Request.{
  header_append_value, ParserCall, header_field, header_value, msg_begin, url_complete,
  headers_complete, parser_calls, parser_call, on_header, client_header_fieldcb,
  client_header_valuecb, client_msg_begin, client_url_complete, client_headers_completecb,
  start_request,
}

-- The callbacks for the pieces of a header, with others behind them.
abbrev pub piece_calls : List Piece → List ParserCall → List ParserCall
piece_calls [] rest = rest
piece_calls (of_field s ∷ ps) rest = header_field s ∷ piece_calls ps rest
piece_calls (of_value s ∷ ps) rest = header_value s ∷ piece_calls ps rest

-- A client that reads its first request.
abbrev reading : Header → Client → Client
reading h c = record c { request_header = some h; pending_request_header = none }

-- A header that is read to its end was first put together and then completed.
pub read_header-parts :
    (h h2 : Header) (ps : List Piece)
    → read_header h ps ≡ some h2
    → (h1 : Header) × (append_pieces h ps ≡ some h1) × (header_append_complete h1 ≡ some h2)
unfolding read_header
read_header-parts h h2 ps e = elim (option_cases (append_pieces h ps)) [
  | inl n ↦ ground (arith, n)
  | inr (h1, s) ↦ (h1, s, ground (arith, s))
]

pub complete-method :
    (h h2 : Header) (method : Bytes)
    → header_append_complete h ≡ some h2
    → header_append_complete (header_set_method h method) ≡ some (header_set_method h2 method)
unfolding header_append_complete header_set_method
complete-method h h2 method e = ground arith

module _ (parse_url : UrlParser) where
  pieces_run :
      (ps : List Piece) (rest : List ParserCall) (c : Client) (h h1 : Header)
      → append_pieces h ps ≡ some h1
      → parser_calls parse_url (piece_calls ps rest) (reading h c)
        ≡ parser_calls parse_url rest (reading h1 c)
  unfolding append_pieces append_piece_of parser_calls parser_call client_header_fieldcb
      client_header_valuecb on_header
  pieces_run [] rest c h h1 e = ap (λ k. parser_calls parse_url rest (reading k c)) (ground arith)
  pieces_run (of_field s ∷ ps) rest c h h1 e = elim (option_cases (header_append_field h s)) [
    | inl n ↦ ground (arith, n)
    | inr (k, f) ↦ rw (parser_calls, parser_call, f) (pieces_run ps rest c k h1 (ground (arith, f)))
  ]
  pieces_run (of_value s ∷ ps) rest c h h1 e = pieces_run ps rest c (header_append_value h s) h1 e

  create_relay_run :
      (id port : ℕ) (host : Bytes) (h : Header) (c : Client)
      → header_get_host parse_url h ≡ some host
      → header_get_host_port parse_url h ≡ some port
      → create_relay parse_url id h c
        ≡ some (record c { relay = some id; calls = c.calls ++ relay_create host port ∷ [] })
  unfolding create_relay
  create_relay_run id port host h c eh ep = ground arith

  headers_complete_run :
      (id port : ℕ) (method host : Bytes) (h1 h2 : Header) (c : Client)
      → header_append_complete (header_set_method h1 method) ≡ some h2
      → header_get_host parse_url h2 ≡ some host
      → header_get_host_port parse_url h2 ≡ some port
      → client_headers_completecb parse_url id method (reading h1 c)
        ≡ some (record (reading h2 c) {
          file = detect no_events (negsuc 0) c.file;
          relay = some id;
          calls = c.calls ++ relay_create host port ∷ [];
        })
  unfolding client_headers_completecb on_header start_request
  headers_complete_run id port method host h1 h2 c e eh ep =
      rw (client_headers_completecb, on_header, e)
        (create_relay_run id port host h2
          (record (reading h2 c) { file = detect no_events (negsuc 0) c.file }) eh ep)

  -- The header that a request is read to.
  abbrev pub request_of : Bytes → Bytes → List Pair → Header
  request_of url method ps = record header_new {
    method = take 10 (c_str method);
    url = some (c_str url);
    list_headers = all_joined ps;
  }

  -- A new client reads its first request, whose names and values the parser hands out in whatever
  -- pieces: no assertion fails, the request header is the one read, the client no longer watches
  -- its descriptor, and the one call made is that a relay is created for the host and the port of
  -- the URL.
  pub first_request_creates_relay :
      (id port : ℕ) (url method host : Bytes) (ps : List Pair)
      → AllText ps
      → header_get_host parse_url (request_of url method ps) ≡ some host
      → header_get_host_port parse_url (request_of url method ps) ≡ some port
      → parser_calls parse_url
          (msg_begin ∷ url_complete url ∷ piece_calls (pieces ps) (headers_complete id method ∷ []))
          client_handle_fd
        ≡ some (record client_handle_fd {
          file = detect no_events (negsuc 0) client_handle_fd.file;
          relay = some id;
          request_header = some (request_of url method ps);
          calls = relay_create host port ∷ [];
        })
  unfolding parser_calls parser_call client_msg_begin client_url_complete on_header client_handle_fd
      header_new header_set_url header_set_method
  first_request_creates_relay id port url method host ps t eh ep =
      let h0 = header_set_url header_new url in
      let h2 = record h0 { list_headers = all_joined ps } in
      let r = read_header-parts h0 h2 (pieces ps) (
        read_header-pieces ps h0 (record { no_field = refl; no_value = refl; not_value = refl })
          t) in
      let done = complete-method r.0 h2 method r.2 in
      pieces_run (pieces ps) (headers_complete id method ∷ []) client_handle_fd h0 r.0 r.1
      ∙ rw
          (
            parser_calls,
            parser_call,
            headers_complete_run id port method host r.0 (request_of url method ps) client_handle_fd
                done eh ep,
          )
          refl
