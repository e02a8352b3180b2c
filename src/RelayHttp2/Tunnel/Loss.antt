-- ===== src/RelayHttp2/Tunnel/Loss.antt =====
-- relay_http2.c and conn_tcp.c: what an error on the tunnel leaves.
use h2_client_proxy.Base.{
  has_bit, bit_if, ℕ, ◌+◌, ◌==◌, ◌≡◌, ◌∙◌, refl, ap, Bool, true, false, ◌&&◌, none, some,
  if◌then◌else◌, arith, List, [], ◌∷◌, ◌++◌, map, Bytes,
}
use h2_client_proxy.Base.Int.{negsuc}
use h2_client_proxy.Conn.{
  tcp_conn_detect, tcp_conn_eventcb, tcp_conn_close, conn_read, conn_write, conn_timeout,
  conn_error,
}
use h2_client_proxy.RelayHttp2.Types.{World, Callback, err_conn_failed}
use h2_client_proxy.RelayHttp2.Lifecycle.{relay_free, freed}
use h2_client_proxy.RelayHttp2.Tunnel.{
  Tunnel, relay_tunnel_eventcb, drop_relay, drop_all, drop_all_clients, lose,
}

-- The events of conn.h with an error among them.
abbrev with_error : Bool → Bool → Bool → ℕ
with_error r w t =
    bit_if r conn_read + bit_if w conn_write + bit_if t conn_timeout + bit_if true conn_error

with_error-bits :
    (r w t : Bool)
    → (has_bit conn_error (with_error r w t) ≡ true)
      × ((with_error r w t == conn_write) ≡ false)
      × ((with_error r w t == conn_read) ≡ false)
with_error-bits true true true = (refl, refl, refl)
with_error-bits true true false = (refl, refl, refl)
with_error-bits true false true = (refl, refl, refl)
with_error-bits true false false = (refl, refl, refl)
with_error-bits false true true = (refl, refl, refl)
with_error-bits false true false = (refl, refl, refl)
with_error-bits false false true = (refl, refl, refl)
with_error-bits false false false = (refl, refl, refl)

passed_on :
    (what : ℕ)
    → has_bit 8 what ≡ true
    → tcp_conn_eventcb what ≡ with_error (has_bit 1 what) (has_bit 2 what) (has_bit 4 what)
unfolding tcp_conn_eventcb
passed_on what e = rw (tcp_conn_eventcb, e) refl

error_loses :
    (cb : Callback) (r w t : Bool) (received : Bytes) (tunnel : Tunnel)
    → relay_tunnel_eventcb cb (with_error r w t) received tunnel ≡ lose cb tunnel
unfolding relay_tunnel_eventcb
error_loses cb r w t received tunnel =
    let e = with_error-bits r w t in rw (relay_tunnel_eventcb, e.1, e.2, e.0) refl

abbrev pub AllFreed : List World → Type 0
AllFreed [] = Unit {0}
AllFreed (w ∷ ws) = (w.relay.is_freed ≡ true) × AllFreed ws

-- A relay that was told, if it is attached, and freed.
abbrev pub dropped_relay : Callback → World → World
dropped_relay cb w = freed (if w.relay.is_attached then cb err_conn_failed w else w)

-- Every relay has a session.
abbrev pub all_in_session : List World → Bool
all_in_session [] = true
all_in_session (w ∷ ws) = w.relay.session && all_in_session ws

dropped-AllFreed : (cb : Callback) (ws : List World) → AllFreed (map (dropped_relay cb) ws)
unfolding freed
dropped-AllFreed cb [] = tt
dropped-AllFreed cb (w ∷ ws) = (refl, dropped-AllFreed cb ws)

module _ (cb : Callback)
    (keeps : (w : World) → (cb err_conn_failed w).relay.session ≡ w.relay.session) where
  drop_relay-run :
      (w : World) → drop_relay cb w ≡ (if w.relay.session then some (dropped_relay cb w) else none)
  unfolding drop_relay relay_free
  drop_relay-run w = ground (arith, keeps w)

  drop_all-run :
      (ws : List World)
      → drop_all cb ws ≡ (if all_in_session ws then some (map (dropped_relay cb) ws) else none)
  unfolding drop_all
  drop_all-run [] = refl
  drop_all-run (w ∷ ws) = ground (arith, drop_relay-run w, drop_all-run ws)

  -- The tunnel after it was lost.
  abbrev pub lost : Tunnel → Tunnel
  lost t = record t {
    conn = tcp_conn_close (tcp_conn_detect 0 (negsuc 0) t.conn);
    session = false;
    relays = [];
    dropped = t.dropped ++ map (dropped_relay cb) t.relays;
  }

  lose-run : (t : Tunnel) → lose cb t ≡ (if all_in_session t.relays then some (lost t) else none)
  unfolding lose drop_all_clients
  lose-run t = ground (arith, drop_all-run t.relays)

  -- An event of the descriptor with EP_ERROR, 8, whatever else it has, where the callbacks of clients
  -- leave the session of a relay as it is. If every relay in the list has a session, the tunnel is
  -- closed and its session gone, no relay is left in the list, and those that were in it were dropped
  -- in order, the attached ones told that the connection failed, and all of them freed. If one has
  -- none, which was made before the tunnel was connected, this is a crash.
  pub relay_tunnel_eventcb-drops :
      (what : ℕ) (received : Bytes) (t : Tunnel)
      → has_bit 8 what ≡ true
      → (relay_tunnel_eventcb cb (tcp_conn_eventcb what) received t
          ≡ (if all_in_session t.relays then some (lost t) else none))
        × ((lost t).conn.is_closed ≡ true)
        × AllFreed (map (dropped_relay cb) t.relays)
  unfolding tcp_conn_close
  relay_tunnel_eventcb-drops what received t e = (
    ap (λ x. relay_tunnel_eventcb cb x received t) (passed_on what e)
        ∙ error_loses cb (has_bit 1 what) (has_bit 2 what) (has_bit 4 what) received t
        ∙ lose-run t,
    refl,
    dropped-AllFreed cb t.relays,
  )
