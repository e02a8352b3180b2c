-- ===== src/Downstream/Mixed.antt =====
-- http_downstream.c: the header of a stream is made when the connection is accepted, and never again.
use h2_client_proxy.Base.{
  ℕ, ◌+◌, inl, inr, Option-cases, ◌≡◌, refl, sym, ap, ◌∙◌, arith, false, Option, none, some, List,
  [], ◌∷◌, ◌++◌, length, append_assoc, append-nil, Bytes, c_str,
}
use h2_client_proxy.Base.Int.{ℤ}
use h2_client_proxy.Header.{
  Header, Field, header_append_field, header_append_value, header_append_complete, header_set_url,
}
use h2_client_proxy.Header.Reassembly.{
  Piece, of_field, of_value, Pair, AllText, all_joined, pieces, read_header, complete,
  append_pieces, append_piece_of, IsSettled, read_header-pieces,
}
use h2_client_proxy.Downstream.Types.{Downstreams, set_header, set_events, event_new, put}
use h2_client_proxy.Downstream.{
  ParserCall, msg_begin, url_complete, header_field, header_value, headers_complete,
  message_complete, on_header, parser_call, parser_calls, http_downstream_headers_completecb,
  http_upstream_queue_event,
}

-- The calls of the parser for the pieces of a header, and then for its end.
abbrev pub piece_calls : List Piece → List ParserCall → List ParserCall
piece_calls [] rest = rest
piece_calls (of_field s ∷ ps) rest = header_field s ∷ piece_calls ps rest
piece_calls (of_value s ∷ ps) rest = header_value s ∷ piece_calls ps rest

-- A request with these pieces, whose event is queued at a time with the address of its item.
pub record Request : Type 0 where
  pub url : Bytes
  pub pairs : List Pair
  pub time : ℤ
  pub item : ℕ

abbrev pub request_calls : Request → List ParserCall → List ParserCall
request_calls r rest =
    msg_begin
    ∷ url_complete r.url
    ∷ piece_calls (pieces r.pairs) (headers_complete r.time r.item ∷ message_complete ∷ rest)

abbrev pub requests_calls : List Request → List ParserCall
requests_calls [] = []
requests_calls (r ∷ rs) = request_calls r (requests_calls rs)

-- The fields of some requests, in order.
abbrev pub fields_of : List Request → List Field
fields_of [] = []
fields_of (r ∷ rs) = all_joined r.pairs ++ fields_of rs

abbrev pub AllTexts : List Request → Type 0
AllTexts [] = Unit {0}
AllTexts (r ∷ rs) = AllText r.pairs × AllTexts rs

abbrev pub header_of : ℕ → Downstreams → Header
header_of id w = (w.downstream_at id).request_header

abbrev pub waiting : ℕ → Downstreams → ℕ
waiting id w = length (w.downstream_at id).list_events

module _ (id : ℕ) where
  -- Some calls lead to a state with this header and with so many more events that wait.
  record Leads (before : List ParserCall → List ParserCall) (w : Downstreams) (h : Header) (n : ℕ)
      : Type 0 where
    after : Downstreams
    runs : (rest : List ParserCall) → parser_calls id (before rest) w ≡ parser_calls id rest after
    header : header_of id after ≡ h
    count : waiting id after ≡ n + waiting id w

  header-Leads :
      (p : ParserCall) (f : Header → Option Header) (h : Header) (w : Downstreams)
      → parser_call id p w ≡ on_header f id w
      → f (header_of id w) ≡ some h
      → Leads (λ rest. p ∷ rest) w h 0
  unfolding parser_calls on_header set_header
  header-Leads p f h w is e =
      let after = put id (set_header h (w.downstream_at id)) w in
      record {
        after = after;
        runs = λ rest.
            ap
              (λ (o : Option Downstreams). elim o as (λ _. Option Downstreams) [
                | none ↦ none
                | some x ↦ parser_calls id rest x
              ])
              (is
                ∙ ap
                    (λ (o : Option Header). elim o as (λ _. Option Downstreams) [
                      | none ↦ none
                      | some x ↦ some (put id (set_header x (w.downstream_at id)) w)
                    ])
                    e);
        header = ground arith;
        count = ground arith;
      }

  then-Leads :
      (f g : List ParserCall → List ParserCall) (w : Downstreams) (h h' : Header) (n m k : ℕ)
      → k ≡ m + n
      → (x : Leads f w h n) → Leads g x.after h' m
      → Leads (λ rest. f (g rest)) w h' k
  then-Leads f g w h h' n m k sum x y = record {
    after = y.after;
    runs = λ rest. x.runs (g rest) ∙ y.runs rest;
    header = y.header;
    count = omega (arith, x.count, y.count, sum);
  }

  pieces-Leads :
      (ps : List Piece) (w : Downstreams) (h : Header)
      → append_pieces (header_of id w) ps ≡ some h
      → Leads (piece_calls ps) w h 0
  unfolding append_pieces append_piece_of parser_call
  pieces-Leads [] w h e = record {
    after = w;
    runs = λ rest. refl;
    header = cc;
    count = omega arith;
  }
  pieces-Leads (of_field s ∷ ps) w h e =
      let step : Option Header → Option Header =
        λ o. elim o [ none ↦ none | some g ↦ append_pieces g ps ] in
      elim (Option-cases (header_append_field (header_of id w) s)) [
        | inl e1 ↦ let clash : none ≡ some h = sym (ap step e1) ∙ e in cc
        | inr (h1, e1) ↦
            let x = header-Leads (header_field s) (λ g. header_append_field g s) h1 w refl e1 in
            let y =
              pieces-Leads ps x.after h
                (ap (λ g. append_pieces g ps) x.header ∙ (sym (ap step e1) ∙ e)) in
            then-Leads _ (piece_calls ps) w h1 h 0 0 0 (omega arith) x y
      ]
  pieces-Leads (of_value s ∷ ps) w h e =
      let h1 = header_append_value (header_of id w) s in
      let x = header-Leads (header_value s) (λ g. some (header_append_value g s)) h1 w refl refl in
      let y = pieces-Leads ps x.after h (ap (λ g. append_pieces g ps) x.header ∙ e) in
      then-Leads _ (piece_calls ps) w h1 h 0 0 0 (omega arith) x y

  complete-Leads :
      (ms : ℤ) (item : ℕ) (w : Downstreams) (h : Header)
      → header_append_complete (header_of id w) ≡ some h
      → Leads (λ rest. headers_complete ms item ∷ rest) w h 1
  unfolding parser_calls parser_call http_downstream_headers_completecb on_header set_header
      http_upstream_queue_event set_events
  complete-Leads ms item w h e =
      let at : Header → Downstreams = λ x. put id (set_header x (w.downstream_at id)) w in
      let step : List ParserCall → Option Header → Option Downstreams = λ rest o.
        let o1 : Option Downstreams = elim o [ none ↦ none | some x ↦ some (at x) ] in
        let o2 : Option Downstreams = elim o1 [
          | none ↦ none
          | some x ↦ some (http_upstream_queue_event ms item id event_new x)
        ] in
        elim o2 [ none ↦ none | some x ↦ parser_calls id rest x ] in
      record {
        after = http_upstream_queue_event ms item id event_new (at h);
        runs = λ rest. ap (step rest) e;
        header = ground arith;
        count = ground arith;
      }

  -- The header with the fields and the URL of one more request.
  abbrev with_request : Header → Request → Header
  with_request h r = record h {
    url = some (c_str r.url);
    last_field = none;
    last_value = none;
    is_last_value = false;
    list_headers = h.list_headers ++ all_joined r.pairs;
  }

  read_complete :
      (h h' : Header) (ps : List Piece)
      → read_header h ps ≡ some h'
      → (g : Header) × (append_pieces h ps ≡ some g) × (header_append_complete g ≡ some h')
  unfolding read_header
  read_complete h h' ps e = elim (Option-cases (append_pieces h ps)) [
    | inl e1 ↦ let clash : none ≡ some h' = sym (ap complete e1) ∙ e in cc
    | inr (g, e1) ↦ (g, e1, sym (ap complete e1) ∙ e)
  ]

  request-Leads :
      (r : Request) (w : Downstreams)
      → IsSettled (header_of id w)
      → AllText r.pairs
      → Leads (request_calls r) w (with_request (header_of id w) r) 1
  unfolding parser_calls parser_call header_set_url
  request-Leads r w v t =
      let h0 = header_of id w in
      let h1 = header_set_url h0 r.url in
      let h2 = with_request h0 r in
      let settled : IsSettled h1 = record {
        no_field = v.no_field;
        no_value = v.no_value;
        not_value = v.not_value;
      } in
      let (g, read, done) =
        read_complete h1 h2 (pieces r.pairs) (read_header-pieces r.pairs h1 settled t) in
      let x =
        header-Leads (url_complete r.url) (λ h. some (header_set_url h r.url)) h1 w refl refl in
      let y =
        pieces-Leads (pieces r.pairs) x.after g
          (ap (λ h. append_pieces h (pieces r.pairs)) x.header ∙ read) in
      let z = complete-Leads r.time r.item y.after h2 (ap header_append_complete y.header ∙ done) in
      let ended = λ (rest : List ParserCall). headers_complete r.time r.item ∷ rest in
      let yz =
        then-Leads (piece_calls (pieces r.pairs)) ended x.after g h2 0 1 1 (omega arith) y z in
      let xyz =
        then-Leads (λ rest. url_complete r.url ∷ rest)
          (λ rest. piece_calls (pieces r.pairs) (ended rest)) w h1 h2 0 1 1 (omega arith) x yz in
      record {
        after = xyz.after;
        runs = λ rest. xyz.runs (message_complete ∷ rest);
        header = xyz.header;
        count = xyz.count;
      }

  -- Any requests on one connection, from a header with nothing half read, with whatever pieces the
  -- parser cuts their headers into: no assertion fails, each of them has its event, and the header of the
  -- stream, which is the only one, then holds the fields of all of them behind each other.
  pub requests_mixed :
      (rs : List Request) (w : Downstreams)
      → IsSettled (header_of id w)
      → AllTexts rs
      → (w' : Downstreams) × (parser_calls id (requests_calls rs) w ≡ some w')
        × ((header_of id w').list_headers ≡ (header_of id w).list_headers ++ fields_of rs)
        × (waiting id w' ≡ length rs + waiting id w)
  unfolding parser_calls
  requests_mixed [] w v t = (w, refl, sym (append-nil _), omega arith)
  requests_mixed (r ∷ rs) w v t =
      let x = request-Leads r w v t.0 in
      let settled : IsSettled (header_of id x.after) =
        rw (x.header) (record { no_field = refl; no_value = refl; not_value = refl }) in
      let (w', runs, fields, count) = requests_mixed rs x.after settled t.1 in
      (
        w',
        x.runs (requests_calls rs) ∙ runs,
        fields
            ∙ ap (λ h. h.list_headers ++ fields_of rs) x.header
            ∙ append_assoc (header_of id w).list_headers (all_joined r.pairs) (fields_of rs),
        omega (arith, count, x.count),
      )
