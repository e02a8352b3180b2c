-- ===== src/RelayHttp/Tests.antt =====
-- Runs of the relays over HTTP/1 on one host.
use h2_client_proxy.Base.{
  arith, sym, str_case_eq, ℕ, ◌==◌, Bool, true, false, none, some, List, [], ◌∷◌, ◌++◌, ◌≡◌, refl,
  inl, inr, Bool-cases, Bytes, codes, c_str,
}
use h2_client_proxy.Ep.Types.{assign}
use h2_client_proxy.EpBuf.{buf_read_event}
use h2_client_proxy.Header.{Header, header_new, header_value, field_line}
use h2_client_proxy.RelayHttp2.Types.{status_request_sent}
use h2_client_proxy.RelayHttp2.Request.{UrlParser}
use h2_client_proxy.RelayHttp.Types.{HttpRelay, Relays, Callback}
use h2_client_proxy.RelayHttp.Pool.{
  relay_sys_reuse_relay, relay_count_hash, new_relay, idle_relay, relay_create, find_idle,
}
use h2_client_proxy.RelayHttp.Pool.Valid.{IsPool, eq_sound, is_member}
use h2_client_proxy.RelayHttp.Pool.Create.{IsReady, relay_create-IsReady}
use h2_client_proxy.Header.Render.{render}
use h2_client_proxy.Util.{append_format}
use h2_client_proxy.RelayHttp.Request.{
  has_room, request_text, append_sent, relay_send_request, target_of, sent_field,
  is_chunked_request,
}
use h2_client_proxy.RelayHttp.Request.Wire.{Wrote, wire, send_body, parts_text, send_body-Wrote}
use h2_client_proxy.RelayHttp.Request.Reuse.{request_lines, relay_send_request-wire, reused_chunks}
use h2_client_proxy.RelayHttp.Response.{
  ParserCall, on_message_begin, on_message_complete, relay_conncb,
}
use h2_client_proxy.RelayHttp.Response.Keeps.{relay_conncb-IsPool}

-- A relay that is connected, and was used for a body in chunks.
abbrev open_relay : HttpRelay
open_relay = record (new_relay (codes "a.b") 80) {
  conn = true;
  dns_req = false;
  connected = true;
  is_chunk_post = true;
}

-- The relay 1 waits, and the others are in use.
abbrev one_idle : Relays
one_idle = record {
  relay_at = assign (λ _. open_relay) 1 (idle_relay open_relay);
  idle = assign (λ _. []) (relay_count_hash (codes "a.b")) (1 ∷ []);
  calls = [];
}

one_idle-IsPool : IsPool one_idle
unfolding new_relay c_str is_member
one_idle-IsPool = record {
  buckets = λ i. elim (Bool-cases (relay_count_hash (codes "a.b") == i)) [
    | inl e ↦ rw (e) (
      record {
        marked = refl;
        live = refl;
        has_conn = refl;
        in_bucket = eq_sound (relay_count_hash (codes "a.b")) i e;
        ready = refl;
      },
      (refl, tt),
    )
    | inr e ↦ rw (e) tt
  ];
}

two_is_new : (i : ℕ) → is_member 2 (one_idle.idle i) ≡ false
unfolding is_member
two_is_new i = elim (Bool-cases (relay_count_hash (codes "a.b") == i)) [
  | inl e ↦ rw (e) refl
  | inr e ↦ rw (e) refl
]

relay_create-IsReady_example :
    (id : ℕ) × (w' : Relays) × (relay_create 2 (codes "a.b") 80 7 one_idle ≡ some (id, w'))
    × IsReady 2 (codes "a.b") 80 7 one_idle id w'
relay_create-IsReady_example =
    relay_create-IsReady 2 (codes "a.b") 80 7 one_idle one_idle-IsPool two_is_new

abbrev quiet : Callback
quiet id event w = some w

-- A response that ends at once.
abbrev whole : Bytes → List ParserCall × Bool
whole received = (on_message_begin ∷ on_message_complete ∷ [], true)

abbrev answered : Relays
answered = elim (relay_conncb quiet whole 2 buf_read_event (codes "x") one_idle) [
  | none ↦ one_idle
  | some w ↦ w
]

relay_conncb-IsPool_example : IsPool answered
unfolding relay_conncb new_relay relay_sys_reuse_relay
relay_conncb-IsPool_example =
    relay_conncb-IsPool quiet (λ id event w v w' e. let p : w ≡ w' = cc in rw (sym p) v) whole 2
      buf_read_event (codes "x") one_idle answered one_idle-IsPool refl

abbrev no_parts : UrlParser
no_parts url is_connect = record {
  schema = none;
  host = none;
  port_text = none;
  path = none;
  query = none;
  fragment = none;
  port = 0;
}

abbrev request : Header
request = record header_new {
  method = codes "POST";
  url = some (codes "http://a.b");
  list_headers = record { field = codes "Proxy-Connection"; value = codes "close" } ∷ [];
}

relay_send_request-wire_example :
    (w' : Relays) × (relay_send_request no_parts 2 request one_idle ≡ some w')
    × (wire 2 w'.calls
        ≡ wire 2 one_idle.calls
          ++ c_str (request_lines request (target_of (codes "http://a.b") (no_parts [] false))))
    × ((w'.relay_at 2).relay_status ≡ status_request_sent)
unfolding new_relay header_new target_of sent_field str_case_eq field_line render
relay_send_request-wire_example =
    relay_send_request-wire no_parts 2 request (codes "http://a.b") one_idle refl refl refl
      (omega arith, omega arith) ((omega arith, omega arith), tt) (omega arith) (omega arith)

send_body-Wrote_example :
    Wrote 2 (parts_text true (codes "hi" ∷ [])) one_idle (send_body 2 (codes "hi" ∷ []) one_idle)
unfolding new_relay
send_body-Wrote_example = send_body-Wrote 2 true (codes "hi" ∷ []) one_idle refl refl

reused_chunks_example :
    (w1 : Relays) × (relay_create 2 (codes "a.b") 80 7 one_idle ≡ some (1, w1))
    × ((w2 : Relays) × (relay_send_request no_parts 1 request w1 ≡ some w2)
        × Wrote 1 (parts_text true (codes "hi" ∷ [])) w2 (send_body 1 (codes "hi" ∷ []) w2))
unfolding new_relay header_new find_idle c_str str_case_eq is_chunked_request relay_count_hash
    header_value has_room target_of request_text append_sent sent_field field_line append_format
reused_chunks_example =
    reused_chunks no_parts 2 (codes "a.b") 80 7 1 request (codes "http://a.b") (codes "hi" ∷ [])
      one_idle one_idle-IsPool refl refl refl refl refl refl
