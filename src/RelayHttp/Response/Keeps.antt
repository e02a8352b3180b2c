-- ===== src/RelayHttp/Response/Keeps.antt =====
-- relay_http.c: what comes from the server keeps the buckets of idle relays, if the client's
-- callback does.
use h2_client_proxy.Base.{
  ℕ, Bool, true, false, not, ◌&&◌, Option, some, List, [], ◌∷◌, ◌≡◌, refl, ap, sym, ◌∙◌,
  if◌then◌else◌, Bytes,
}
use h2_client_proxy.Ep.Types.{ep_read}
use h2_client_proxy.EpBuf.{BufEvent, buf_read_event, buf_write_event, buf_error}
use h2_client_proxy.Header.{
  header_new, header_set_url, header_set_status_code, header_append_value, header_append_field,
  header_append_complete,
}
use h2_client_proxy.RelayHttp2.Types.{
  RelayEvent, header_complete, body, msg_complete, err_response_parse_failed, status_connected,
}
use h2_client_proxy.RelayHttp.Types.{Relays, Callback, call_conn, put, conn_enable, conn_free}
use h2_client_proxy.RelayHttp.Pool.{relay_free, relay_sys_reuse_relay}
use h2_client_proxy.RelayHttp.Pool.Valid.{IsPool}
use h2_client_proxy.RelayHttp.Pool.Keeps.{
  assign_same, put_other-IsPool, relay_sys_reuse_relay-IsPool,
}
use h2_client_proxy.RelayHttp.Response.{
  ParserCall, on_message_begin, on_headers_complete, on_message_complete, on_status_complete,
  on_url, on_header_field, on_header_value, on_body, write_header, then_on, start_body, end_body,
  change, header_complete_status, relay_headers_completecb, relay_bodycb, relay_message_completecb,
  run_hook, run_hooks, conn_err_event, relay_handle_conn_err, after_parse, on_read, relay_conncb,
}
use h2_client_proxy.RelayHttp.Response.Results.{
  Gives, Keeps, Gives-some, if-Gives, then_on-Gives, branch-Gives, elim-Gives, call_conn-Keeps,
  change-IsPool, set_status-IsHarmless, set_header-IsHarmless, start_body-IsHarmless,
  end_body-IsHarmless, set_connected-IsHarmless, write_header-Keeps, relay_free-Keeps, then_free,
}

-- A lost connection of a relay that waits, and of one that does not.
module _ (cb : Callback) (keeps : (id : ℕ) (event : RelayEvent) → Keeps (cb id event)) where
  relay_handle_conn_err-Keeps : (id : ℕ) → Keeps (relay_handle_conn_err cb id)
  unfolding relay_handle_conn_err
  relay_handle_conn_err-Keeps id w v = elim-Gives (call_conn id conn_free w) _ (λ w1 e.
      let v1 : IsPool w1 = call_conn-Keeps id conn_free w v w1 e in
      let r1 = record (w1.relay_at id) { conn = false } in
      let w2 = put id r1 w1 in
      let event = conn_err_event (w2.relay_at id) in
      branch-Gives id (relay_free id) (w2.relay_at id).is_idle (some w2) (cb id event w2)
        (λ _. then_free id r1 w1 v1 refl refl)
        (λ f.
          let other = ap (λ r. r.is_idle) (sym (assign_same w1.relay_at id r1)) ∙ f in
          then_on-Gives id (relay_free id) (cb id event w2) (relay_free-Keeps id)
            (keeps id event w2 (put_other-IsPool id r1 w1 other v1))))

  run_hook-Keeps : (id : ℕ) (c : ParserCall) → Keeps (run_hook cb id c)
  unfolding run_hook relay_headers_completecb relay_bodycb relay_message_completecb
  run_hook-Keeps id on_message_begin w v = Gives-some _ (
      change-IsPool (λ r. record r { response_header = some header_new }) id w
        (set_header-IsHarmless (some header_new)) v)
  run_hook-Keeps id (on_url u) w v = write_header-Keeps (λ h. some (header_set_url h u)) id w v
  run_hook-Keeps id (on_status_complete code) w v =
      write_header-Keeps (λ h. some (header_set_status_code h code)) id w v
  run_hook-Keeps id (on_header_field piece) w v =
      write_header-Keeps (λ h. header_append_field h piece) id w v
  run_hook-Keeps id (on_header_value piece) w v =
      write_header-Keeps (λ h. some (header_append_value h piece)) id w v
  run_hook-Keeps id on_headers_complete w v =
      elim-Gives (write_header header_append_complete id w) _ (λ w1 e.
        let w2 = change (λ r. record r { relay_status = header_complete_status }) id w1 in
        keeps id header_complete w2 (
          change-IsPool _ id w1 set_status-IsHarmless
            (write_header-Keeps header_append_complete id w v w1 e)))
  run_hook-Keeps id (on_body bytes) w v =
      let w1 = change (start_body bytes) id w in
      then_on-Gives id (λ w'. some (change end_body id w')) (cb id body w1)
        (λ w' v'.
          Gives-some (change end_body id w') (change-IsPool end_body id w' end_body-IsHarmless v'))
        (keeps id body w1 (change-IsPool (start_body bytes) id w (start_body-IsHarmless bytes) v))
  run_hook-Keeps id on_message_complete w v =
      let w1 = change (λ r. record r { relay_status = status_connected }) id w in
      then_on-Gives id (relay_sys_reuse_relay id) (cb id msg_complete w1)
        (λ w' v' w'' e. relay_sys_reuse_relay-IsPool id w' w'' e v')
        (keeps id msg_complete w1 (change-IsPool _ id w set_status-IsHarmless v))

  run_hooks-Gives :
      (id : ℕ) (cs : List ParserCall) (m : Option Relays) → Gives m → Gives (run_hooks cb id cs m)
  unfolding run_hooks
  run_hooks-Gives id [] m g = g
  run_hooks-Gives id (c ∷ cs) m g =
      run_hooks-Gives id cs (then_on id (run_hook cb id c) m)
        (then_on-Gives id (run_hook cb id c) m (run_hook-Keeps id c) g)

  after_parse-Keeps : (id : ℕ) (is_ok : Bool) → Keeps (after_parse cb id is_ok)
  unfolding after_parse
  after_parse-Keeps id is_ok w v =
      let r = w.relay_at id in
      let told = cb id err_response_parse_failed w in
      if-Gives (not is_ok && not r.is_idle) (then_on id (relay_free id) told)
        (if r.should_free then relay_free id w else some w)
        (λ _.
          then_on-Gives id (relay_free id) told (relay_free-Keeps id)
            (keeps id err_response_parse_failed w v))
        (λ _.
          if-Gives r.should_free (relay_free id w) (some w) (λ _. relay_free-Keeps id w v)
            (λ _. Gives-some w v))

  module _ (parse : Bytes → List ParserCall × Bool) where
    on_read-Keeps : (id : ℕ) (received : Bytes) → Keeps (on_read cb parse id received)
    unfolding on_read
    on_read-Keeps id [] w v = relay_handle_conn_err-Keeps id w v
    on_read-Keeps id (c ∷ cs) w v =
        let p = parse (c ∷ cs) in
        let ran = run_hooks cb id p.0 (some w) in
        if-Gives (w.relay_at id).is_idle (relay_handle_conn_err cb id w)
          (then_on id (after_parse cb id p.1) ran) (λ _. relay_handle_conn_err-Keeps id w v)
          (λ _.
            then_on-Gives id (after_parse cb id p.1) ran (after_parse-Keeps id p.1)
              (run_hooks-Gives id p.0 (some w) (Gives-some w v)))

    -- An event of the connection, whatever was received and whatever the parser calls for it: if
    -- the client's callback keeps the buckets of idle relays valid and there is no crash, they are
    -- valid afterwards: each relay there is idle, connected, not freed, in the bucket of its host,
    -- and stands there once.
    pub relay_conncb-IsPool :
        (id : ℕ) (what : BufEvent) (received : Bytes) (w w' : Relays)
        → IsPool w
        → relay_conncb cb parse id what received w ≡ some w'
        → IsPool w'
    unfolding relay_conncb
    relay_conncb-IsPool id buf_write_event received w w' v e =
        let w1 = change (λ r. record r { connected = true }) id w in
        let enable = call_conn id (conn_enable ep_read) in
        if-Gives (w.relay_at id).connected (some w)
          (then_on id enable (cb id RelayEvent.connected w1)) (λ _. Gives-some w v)
          (λ _.
            then_on-Gives id enable (cb id RelayEvent.connected w1)
              (call_conn-Keeps id (conn_enable ep_read))
              (keeps id RelayEvent.connected w1 (change-IsPool _ id w set_connected-IsHarmless v)))
          w' e
    relay_conncb-IsPool id buf_read_event received w w' v e = on_read-Keeps id received w v w' e
    relay_conncb-IsPool id buf_error received w w' v e = relay_handle_conn_err-Keeps id w v w' e
