-- ===== src/RelaySys/Forward.antt =====
-- client.c and relay.h: a client passes a request and its body on to any relay that keeps the laws of
-- its table.
use h2_client_proxy.Base.{
  ℕ, ◌≡◌, refl, ap, sym, ◌∙◌, Bool, true, false, Option, none, some, List, [], ◌∷◌, ◌++◌,
  append_assoc, append-nil, Bytes,
}
use h2_client_proxy.Header.{Header}
use h2_client_proxy.RelayHttp2.Request.{UrlParser}
use h2_client_proxy.Client.Types.{
  Client, RelayCall, relay_send_request, relay_write_body, relay_complete_request,
}
use h2_client_proxy.Client.Response.{client_handle_relay_connected}
use h2_client_proxy.Client.Request.{parser_calls}
use h2_client_proxy.RelaySys.{RelaySys, RelayLaws, perform, perform_all}
use h2_client_proxy.RelaySys.Calls.{
  buffered, later, AllNonempty, AllConnected, rest_of_body, writes_of, connected-Made, rest-Made,
}

AllNonempty-append : (a b : List Bytes) → AllNonempty a → AllNonempty b → AllNonempty (a ++ b)
AllNonempty-append [] b x y = y
AllNonempty-append (p ∷ ps) b x y = (x.0, AllNonempty-append ps b x.1 y)

writes_of-append : (a b : List Bytes) → writes_of (a ++ b) ≡ writes_of a ++ writes_of b
writes_of-append [] b = refl
writes_of-append (p ∷ ps) b = ap (λ x. relay_write_body p ∷ x) (writes_of-append ps b)

pub after_call {ℓ} :
    {A : Type ℓ} (m : Option A) (f : A → Option A) (a : A)
    → m ≡ some a
    → elim m [ none ↦ none | some x ↦ f x ] ≡ f a
after_call {A} m f a e =
    ap (λ (o : Option A). elim o as (λ _. Option A) [ none ↦ none | some x ↦ f x ]) e

-- The calls for the parts of a body and its end, made of a relay that was told of the request.
module _ (S : RelaySys) (L : RelayLaws S) where
  record Tells (h : Header) (parts : List Bytes) (is_complete : Bool) (m : Option S.Relay)
      : Type 0 where
    relay : S.Relay
    runs : m ≡ some relay
    told : L.Told h parts is_complete relay

  body-Tells :
      (h : Header) (before parts : List Bytes) (r : S.Relay)
      → AllNonempty parts
      → L.Told h before false r
      → Tells h
          (before ++ parts)
          true
          (perform_all S (writes_of parts ++ relay_complete_request ∷ []) r)
  unfolding perform_all perform
  body-Tells h before [] r ne t =
      let (r', runs, told) = L.completes h before r t in
      record {
        relay = r';
        runs = after_call (S.complete_request r) (perform_all S []) r' runs;
        told = rw (append-nil) told;
      }
  body-Tells h before (b ∷ bs) r ne t =
      let (r1, runs, told) = L.writes h before b r ne.0 t in
      let k = body-Tells h (before ++ b ∷ []) bs r1 ne.1 told in
      let rest = perform_all S (writes_of bs ++ relay_complete_request ∷ []) in
      record {
        relay = k.relay;
        runs = after_call (S.write_body b r) rest r1 runs ∙ k.runs;
        told = rw (sym (append_assoc before (b ∷ []) bs)) k.told;
      }

  request-Tells :
      (h : Header) (header : Option Header) (parts : List Bytes) (r : S.Relay)
      → header ≡ some h
      → L.Accepts h
      → L.Connected r
      → AllNonempty parts
      → Tells h parts true (
          perform_all S
            (relay_send_request header ∷ (writes_of parts ++ relay_complete_request ∷ []))
            r)
  unfolding perform_all perform
  request-Tells h header parts r e accepts up ne =
      let (r1, runs, told) = L.sends h r accepts up in
      let k = body-Tells h [] parts r1 ne told in
      let rest = perform_all S (writes_of parts ++ relay_complete_request ∷ []) in
      record {
        relay = k.relay;
        runs =
            ap
              (λ (x : Option Header).
                perform_all S
                  (relay_send_request x ∷ (writes_of parts ++ relay_complete_request ∷ [])) r)
              e
            ∙ (after_call (S.send_request h r) rest r1 runs ∙ k.runs);
        told = k.told;
      }

  -- Over any table of relay functions that keeps the laws: a client whose relay reports that it is
  -- connected, with a request that the relay accepts, parts of the body that are buffered and parts
  -- that come afterwards, none of them empty, and the end of the request. No callback of the client is a
  -- crash, and the calls that it makes of the relay, made of a connected relay, are none either and
  -- leave the relay told of the request, of all these parts in order, and of the end.
  pub client_forwards :
      (parse_url : UrlParser) (c : Client) (id : ℕ) (h : Header) (r : S.Relay)
      (ps : List (ℕ × Bytes))
      → c.relay ≡ some id
      → c.request_header ≡ some h
      → L.Accepts h
      → L.Connected r
      → AllNonempty (buffered c.list_request_body_buffer)
      → AllNonempty (later ps)
      → AllConnected ps
      → (c1 : Client) × (c2 : Client) × (made : List RelayCall) × (r' : S.Relay)
        × (client_handle_relay_connected c ≡ some c1)
        × (parser_calls parse_url (rest_of_body ps) c1 ≡ some c2)
        × (c2.calls ≡ c.calls ++ made)
        × (perform_all S made r ≡ some r')
        × L.Told h (buffered c.list_request_body_buffer ++ later ps) true r'
  client_forwards parse_url c id h r ps e header accepts up early late ready =
      let bufs = buffered c.list_request_body_buffer in
      let first = connected-Made c id e in
      let second = rest-Made parse_url ps first.after id ready first.relay in
      let parts = bufs ++ later ps in
      let tail = writes_of parts ++ relay_complete_request ∷ [] in
      let k =
        request-Tells h c.request_header parts r header accepts up
          (AllNonempty-append bufs (later ps) early late) in
      let send = relay_send_request c.request_header in
      (
        first.after,
        second.after,
        send ∷ tail,
        k.relay,
        first.runs,
        second.runs,
        second.calls
            ∙ ap (λ x. x ++ (writes_of (later ps) ++ relay_complete_request ∷ [])) first.calls
            ∙ append_assoc c.calls (send ∷ writes_of bufs)
                (writes_of (later ps) ++ relay_complete_request ∷ [])
            ∙ ap (λ x. c.calls ++ send ∷ x)
                (sym (
                    append_assoc (writes_of bufs) (writes_of (later ps))
                      (relay_complete_request ∷ []))
                  ∙ ap (λ x. x ++ relay_complete_request ∷ [])
                      (sym (writes_of-append bufs (later ps)))),
        k.runs,
        k.told,
      )
