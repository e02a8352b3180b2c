-- ===== src/RelayHttp/Response.antt =====
-- relay_http.c: the hooks of the parser for a response, the callback of the connection and that of
-- the resolver. What http_parser calls for the bytes received, and whether it sets an error, is the
-- parameter `parse`. Memory that is used after `free` is a crash.
pub mod Results
pub mod Keeps
use h2_client_proxy.Base.{
  ℕ, zero, suc, ltb, not, ◌&&◌, Bool, true, false, Option, none, some, List, [], ◌∷◌, if◌then◌else◌,
  Bytes, codes,
}
use h2_client_proxy.Base.Int.{ℤ, pos, negsuc}
use h2_client_proxy.Header.{
  Header, header_new, header_set_status_code, header_set_url, header_append_field,
  header_append_value, header_append_complete, header_value,
}
use h2_client_proxy.Ep.Types.{ep_read, ep_write}
use h2_client_proxy.EpBuf.{BufEvent, buf_read_event, buf_write_event, buf_error}
use h2_client_proxy.RelayHttp2.Types.{
  RelayEvent, connected, header_complete, body, msg_complete, err_dns_failed, err_conn_failed,
  err_response_parse_failed, err_conn_terminate, status_connected,
}
use h2_client_proxy.RelayHttp.Types.{
  HttpRelay, Relays, Callback, emit, put, call_conn, conn_create, conn_connect, conn_enable,
  conn_free, timer_free,
}
use h2_client_proxy.RelayHttp.Pool.{relay_free, relay_sys_reuse_relay}

-- The hooks, with what the parser passes.
pub data ParserCall : Type 0 where
  on_message_begin on_headers_complete on_message_complete : ParserCall
  on_status_complete : ℕ → ParserCall
  on_url on_header_field on_header_value on_body : Bytes → ParserCall

-- A write to `response_header`; NULL is a crash.
unfoldable pub write_header : (Header → Option Header) → ℕ → Relays → Option Relays
write_header f id w = elim (w.relay_at id).response_header [
  | none ↦ none
  | some h ↦ elim (f h) [
    | none ↦ none
    | some h' ↦ some (put id (record (w.relay_at id) { response_header = some h' }) w)
  ]
]

unfoldable pub has_length : Option Header → Bool
has_length none = false
has_length (some h) = elim (header_value h (codes "content-length")) [
  | none ↦ false
  | some _ ↦ true
]

-- A step behind others, on a relay that must not be freed.
unfoldable pub then_on : ℕ → (Relays → Option Relays) → Option Relays → Option Relays
then_on id f none = none
then_on id f (some w) = let w' = f w in if (w.relay_at id).is_freed then none else w'

unfoldable pub start_body : Bytes → HttpRelay → HttpRelay
start_body bytes r = record r { in_body_callback = true; body = some bytes }

unfoldable pub end_body : HttpRelay → HttpRelay
end_body r = record r { in_body_callback = false; body = none }

abbrev pub change : (HttpRelay → HttpRelay) → ℕ → Relays → Relays
change f id w = put id (f (w.relay_at id)) w

-- The status that `relay_headers_completecb` sets is the event RELAY_HEADER_COMPLETE, 1.
abbrev pub header_complete_status : ℕ
header_complete_status = 1

-- The event that a lost connection is reported as, to the client of a relay that is not idle.
unfoldable pub conn_err_event : HttpRelay → RelayEvent
unfolding has_length
conn_err_event r =
    if (elim r.response_header [ none ↦ false | some h ↦ not (has_length (some h)) ])
    then msg_complete
    else if ltb r.relay_status status_connected
    then err_conn_failed
    else err_conn_terminate

module _ (cb : Callback) where
  unfoldable pub relay_headers_completecb : ℕ → Relays → Option Relays
  unfolding write_header
  relay_headers_completecb id w = elim (write_header header_append_complete id w) [
    | none ↦ none
    | some w' ↦
        cb id header_complete
          (change (λ r. record r { relay_status = header_complete_status }) id w')
  ]

  unfoldable pub relay_bodycb : ℕ → Bytes → Relays → Option Relays
  unfolding start_body end_body then_on
  relay_bodycb id bytes w =
      then_on id (λ w'. some (change end_body id w')) (cb id body (change (start_body bytes) id w))

  unfoldable pub relay_message_completecb : ℕ → Relays → Option Relays
  unfolding then_on
  relay_message_completecb id w =
      then_on id (relay_sys_reuse_relay id)
        (cb id msg_complete (change (λ r. record r { relay_status = status_connected }) id w))

  unfoldable pub run_hook : ℕ → ParserCall → Relays → Option Relays
  unfolding write_header relay_headers_completecb relay_bodycb relay_message_completecb
  run_hook id on_message_begin w =
      some (change (λ r. record r { response_header = some header_new }) id w)
  run_hook id (on_url u) w = write_header (λ h. some (header_set_url h u)) id w
  run_hook id (on_status_complete code) w =
      write_header (λ h. some (header_set_status_code h code)) id w
  run_hook id (on_header_field piece) w = write_header (λ h. header_append_field h piece) id w
  run_hook id (on_header_value piece) w =
      write_header (λ h. some (header_append_value h piece)) id w
  run_hook id on_headers_complete w = relay_headers_completecb id w
  run_hook id (on_body bytes) w = relay_bodycb id bytes w
  run_hook id on_message_complete w = relay_message_completecb id w

  -- `http_parser_execute_`
  unfoldable pub run_hooks : ℕ → List ParserCall → Option Relays → Option Relays
  unfolding run_hook then_on
  run_hooks id [] m = m
  run_hooks id (c ∷ cs) m = run_hooks id cs (then_on id (run_hook id c) m)

  unfoldable pub relay_handle_conn_err : ℕ → Relays → Option Relays
  unfolding conn_err_event then_on
  relay_handle_conn_err id w = elim (call_conn id conn_free w) [
    | none ↦ none
    | some w1 ↦
        let w2 = change (λ r. record r { conn = false }) id w1 in
        then_on id (relay_free id)
          (if (w2.relay_at id).is_idle then some w2 else cb id (conn_err_event (w2.relay_at id)) w2)
  ]

  unfoldable pub relay_conn_tmrcb : ℕ → Relays → Option Relays
  relay_conn_tmrcb id w =
      let w1 = if (w.relay_at id).tmr_connected then emit id timer_free w else w in
      cb id connected (change (λ r. record r { tmr_connected = false }) id w1)

  -- With the address of the first of the addresses; NULL is a crash.
  unfoldable pub relay_dns_resolved : ℕ → ℤ → List Bytes → Relays → Option Relays
  unfolding then_on
  relay_dns_resolved id code ips w =
      let w1 = change (λ r. record r { dns_req = false }) id w in
      let failed = then_on id (relay_free id) (cb id err_dns_failed w1) in
      let w2 = emit id conn_create (change (λ r. record r { conn = true }) id w1) in
      elim code [
        | pos zero ↦ elim ips [
          | [] ↦ none
          | ip ∷ rest ↦
              some
                (emit id (conn_enable ep_write) (emit id (conn_connect ip (w.relay_at id).port) w2))
        ]
        | pos (suc n) ↦ failed
        | negsuc n ↦ failed
      ]

  -- After the parser: an error, on a relay that is not idle, ends it.
  unfoldable pub after_parse : ℕ → Bool → Relays → Option Relays
  unfolding then_on
  after_parse id is_ok w =
      let r = w.relay_at id in
      let failed = then_on id (relay_free id) (cb id err_response_parse_failed w) in
      if not is_ok && not r.is_idle
      then failed
      else if r.should_free
      then relay_free id w
      else some w

  -- The bytes that are read are none for a length of 0 or -1.
  module _ (parse : Bytes → List ParserCall × Bool) where
    unfoldable pub on_read : ℕ → Bytes → Relays → Option Relays
    unfolding relay_handle_conn_err run_hooks after_parse then_on
    on_read id [] w = relay_handle_conn_err id w
    on_read id (c ∷ cs) w =
        let p = parse (c ∷ cs) in
        let parsed = then_on id (after_parse id p.1) (run_hooks id p.0 (some w)) in
        if (w.relay_at id).is_idle then relay_handle_conn_err id w else parsed

    unfoldable pub relay_conncb : ℕ → BufEvent → Bytes → Relays → Option Relays
    unfolding on_read relay_handle_conn_err
    relay_conncb id buf_write_event received w =
        let told =
          then_on id (call_conn id (conn_enable ep_read))
            (cb id connected (change (λ r. record r { connected = true }) id w)) in
        if (w.relay_at id).connected then some w else told
    relay_conncb id buf_read_event received w = on_read id received w
    relay_conncb id buf_error received w = relay_handle_conn_err id w

    -- The timer of a CONNECT: the parser is given a response.
    unfoldable pub on_responsecb : ℕ → Relays → Option Relays
    unfolding run_hooks
    on_responsecb id w =
        let response = codes "HTTP/1.1 200 Connection Established\r\n\r\n" in
        elim (run_hooks id (parse response).0 (some w)) [
          | none ↦ none
          | some w' ↦ some (emit id timer_free w')
        ]
