-- ===== src/RelaySys/Kept.antt =====
-- client.c: the body of a request that comes before the relay is connected. Of its parts only the last
-- one is kept.
use h2_client_proxy.Client.Response.{client_handle_relay_connected}
use h2_client_proxy.Base.{
  ℕ, ◌<◌, ◌≡◌, ◌≢◌, refl, ◌∙◌, arith, Option, some, List, [], ◌∷◌, ◌++◌, length, Bytes, ap,
  append_assoc,
}
use h2_client_proxy.EpBuffer.{EpBuffer, ep_buffer_create}
use h2_client_proxy.RelayHttp2.Types.{status_connected}
use h2_client_proxy.RelayHttp2.Request.{UrlParser}
use h2_client_proxy.Client.Types.{
  relay_send_request, relay_complete_request, Client, RelayCall, record_call,
}
use h2_client_proxy.Client.Request.{
  parser_calls, parser_call, client_bodycb, client_message_completecb, keep_body,
}
use h2_client_proxy.RelaySys.Calls.{
  writes_of, connected-Made, buffered, later, AllNonempty, rest_of_body, complete_run,
}
use h2_client_proxy.RelaySys.Forward.{after_call}

-- The relay is not connected when a part comes.
abbrev pub AllEarly : List (ℕ × Bytes) → Type 0
AllEarly [] = Unit {0}
AllEarly ((status, bytes) ∷ ps) = (status < status_connected) × AllEarly ps

-- What is buffered after some parts: the last of them alone.
abbrev pub kept : List EpBuffer → List (ℕ × Bytes) → List EpBuffer
kept bs [] = bs
kept bs ((status, bytes) ∷ ps) =
    kept (record { buf = bytes; len_total = length bytes; len_sent = 0 } ∷ []) ps

abbrev pub last_part : List (ℕ × Bytes) → List Bytes
last_part [] = []
last_part ((status, bytes) ∷ []) = bytes ∷ []
last_part (p ∷ (q ∷ ps)) = last_part (q ∷ ps)

kept-last_part :
    (b : EpBuffer) (ps : List (ℕ × Bytes)) (p : ℕ × Bytes)
    → buffered (kept (b ∷ []) (p ∷ ps)) ≡ last_part (p ∷ ps)
kept-last_part b [] (status, bytes) = refl
kept-last_part b (q ∷ ps) (status, bytes) =
    kept-last_part (record { buf = bytes; len_total = length bytes; len_sent = 0 }) ps q

-- What is left of the client after the parser read the body and the end of the request.
pub record Kept (m : Option Client) (c : Client) (id : ℕ) (ps : List (ℕ × Bytes)) : Type 0 where
  pub after : Client
  pub runs : m ≡ some after
  pub calls : after.calls ≡ c.calls ++ RelayCall.relay_complete_request ∷ []
  pub relay : after.relay ≡ some id
  pub header : after.request_header ≡ c.request_header
  pub parts : after.list_request_body_buffer ≡ kept c.list_request_body_buffer ps

body_early :
    (status : ℕ) (bytes : Bytes) (c : Client) (id : ℕ)
    → status < status_connected
    → bytes ≢ []
    → c.relay ≡ some id
    → client_bodycb status bytes c
      ≡ some (record c {
        list_request_body_buffer =
            record { buf = bytes; len_total = length bytes; len_sent = 0 } ∷ [];
      })
unfolding client_bodycb keep_body ep_buffer_create
body_early status [] c id early ne e = absurd (ne refl)
body_early status (b ∷ bs) c id early ne e = ground arith

module _ (parse_url : UrlParser) where
  pub early-Kept :
      (ps : List (ℕ × Bytes)) (c : Client) (id : ℕ)
      → AllEarly ps
      → AllNonempty (later ps)
      → c.relay ≡ some id
      → Kept (parser_calls parse_url (rest_of_body ps) c) c id ps
  unfolding parser_calls parser_call
  early-Kept [] c id early ne e = record {
    after = record_call RelayCall.relay_complete_request c;
    runs =
        after_call (client_message_completecb c) (parser_calls parse_url [])
          (record_call RelayCall.relay_complete_request c) (complete_run c id e);
    calls = refl;
    relay = e;
    header = refl;
    parts = refl;
  }
  early-Kept ((status, bytes) ∷ ps) c id early ne e =
      let c1 : Client = record c {
        list_request_body_buffer =
            record { buf = bytes; len_total = length bytes; len_sent = 0 } ∷ [];
      } in
      let k = early-Kept ps c1 id early.1 ne.1 e in
      record {
        after = k.after;
        runs =
            after_call (client_bodycb status bytes c) (parser_calls parse_url (rest_of_body ps)) c1
              (body_early status bytes c id early.0 ne.0 e)
            ∙ k.runs;
        calls = k.calls;
        relay = k.relay;
        header = k.header;
        parts = k.parts;
      }

pub last_part-AllNonempty :
    (ps : List (ℕ × Bytes)) → AllNonempty (later ps) → AllNonempty (last_part ps)
last_part-AllNonempty [] ne = tt
last_part-AllNonempty ((status, bytes) ∷ []) ne = ne
last_part-AllNonempty ((status, bytes) ∷ (q ∷ ps)) ne = last_part-AllNonempty (q ∷ ps) ne.1

pub buffered-last_part : (ps : List (ℕ × Bytes)) → buffered (kept [] ps) ≡ last_part ps
buffered-last_part [] = refl
buffered-last_part (p ∷ ps) = kept-last_part (record { buf = []; len_total = 0; len_sent = 0 }) ps p

-- A client whose relay is not connected and that has nothing buffered: the parts of the body, none of
-- them empty, and the end of the request come before the relay is connected, as they do when the
-- client sends all of it at once. No callback is a crash, and what the relay is told is first that the
-- request is complete, then, when it is connected, the request and the last part of the body alone:
-- the parts before it are lost.
pub early_bodies_lost :
    (parse_url : UrlParser) (c : Client) (id : ℕ) (ps : List (ℕ × Bytes))
    → c.relay ≡ some id
    → c.list_request_body_buffer ≡ []
    → AllEarly ps
    → AllNonempty (later ps)
    → (c1 : Client) × (c2 : Client) × (parser_calls parse_url (rest_of_body ps) c ≡ some c1)
      × (client_handle_relay_connected c1 ≡ some c2)
      × (c2.calls
          ≡ c.calls
            ++ (relay_complete_request
                ∷ relay_send_request c.request_header
                ∷ writes_of (last_part ps)))
early_bodies_lost parse_url c id ps relay nothing early ne =
    let first = early-Kept parse_url ps c id early ne relay in
    let second = connected-Made first.after id first.relay in
    let parts : buffered first.after.list_request_body_buffer ≡ last_part ps =
      ap buffered (first.parts ∙ ap (λ bs. kept bs ps) nothing) ∙ buffered-last_part ps in
    (
      first.after,
      second.after,
      first.runs,
      second.runs,
      second.calls
          ∙ ap
              (λ x.
                x
                ++ relay_send_request first.after.request_header
                  ∷ writes_of (buffered first.after.list_request_body_buffer))
              first.calls
          ∙ append_assoc c.calls (relay_complete_request ∷ []) (
              relay_send_request first.after.request_header
              ∷ writes_of (buffered first.after.list_request_body_buffer))
          ∙ ap
              (λ h.
                c.calls
                ++ (relay_complete_request
                    ∷ relay_send_request h
                    ∷ writes_of (buffered first.after.list_request_body_buffer)))
              first.header
          ∙ ap
              (λ bs.
                c.calls
                ++ (relay_complete_request ∷ relay_send_request c.request_header ∷ writes_of bs))
              parts,
    )
