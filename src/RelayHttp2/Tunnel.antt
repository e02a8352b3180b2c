-- ===== src/RelayHttp2/Tunnel.antt =====
-- relay_http2.c: the connection to the other proxy and its session. What `recv` gives is an
-- argument, and the client's callback is one for each relay.
pub mod Loss
pub mod Sends
use h2_client_proxy.Base.{
  has_bit, bit_if, ℕ, ◌+◌, ◌==◌, ◌&&◌, Bool, true, false, Option, none, some, List, [], ◌∷◌, ◌++◌,
  if◌then◌else◌, Bytes,
}
use h2_client_proxy.Base.Int.{pos, negsuc}
use h2_client_proxy.Conn.{
  TcpConn, tcp_conn_create, tcp_conn_detect, tcp_conn_close, conn_read, conn_write, conn_error,
}
use h2_client_proxy.RelayHttp2.Types.{World, Callback, err_conn_failed}
use h2_client_proxy.RelayHttp2.Lifecycle.{relay_free}

-- `s_conn_tunnel`, `s_tunnel_connecting`, whether `s_session` is set, how often a session was made,
-- the bytes that `nghttp2_session_mem_recv` got, `s_list_relays`, and the relays that were dropped.
pub record Tunnel : Type 0 where
  pub conn : TcpConn
  pub connecting : Bool
  pub session : Bool
  pub sessions : ℕ
  pub received : List Bytes
  pub relays : List World
  pub dropped : List World

-- The connection is made and watched for writing, for 30 seconds.
unfoldable pub relay_sys_init : Tunnel
relay_sys_init = record {
  conn = tcp_conn_detect conn_write (pos 30000) tcp_conn_create;
  connecting = true;
  session = false;
  sessions = 0;
  received = [];
  relays = [];
  dropped = [];
}

-- A relay is told if its client did not close it, and freed.
unfoldable pub drop_relay : Callback → World → Option World
drop_relay cb w = relay_free (if w.relay.is_attached then cb err_conn_failed w else w)

unfoldable pub drop_all : Callback → List World → Option (List World)
unfolding drop_relay
drop_all cb [] = some []
drop_all cb (w ∷ ws) = elim (drop_relay cb w) [
  | none ↦ none
  | some w' ↦ elim (drop_all cb ws) [ none ↦ none | some ws' ↦ some (w' ∷ ws') ]
]

unfoldable pub drop_all_clients : Callback → Tunnel → Option Tunnel
unfolding drop_all
drop_all_clients cb t = elim (drop_all cb t.relays) [
  | none ↦ none
  | some ws ↦ some (record t { relays = []; dropped = t.dropped ++ ws })
]

-- The end of the connection.
unfoldable pub lose : Callback → Tunnel → Option Tunnel
unfolding drop_all_clients
lose cb t =
    let conn = tcp_conn_close (tcp_conn_detect 0 (negsuc 0) t.conn) in
    elim (drop_all_clients cb (record t { conn = conn })) [
      | none ↦ none
      | some t' ↦ some (record t' { session = false })
    ]

unfoldable pub on_received : Callback → Bytes → Tunnel → Option Tunnel
unfolding lose
on_received cb [] t = lose cb t
on_received cb (c ∷ cs) t = some (record t { received = t.received ++ (c ∷ cs) ∷ [] })

-- With the bytes that `recv` gives, none for a result of 0 or -1. The flag stays set when the
-- tunnel is connected.
unfoldable pub relay_tunnel_eventcb : Callback → ℕ → Bytes → Tunnel → Option Tunnel
unfolding on_received
relay_tunnel_eventcb cb what received t =
    if (what == conn_write) && t.connecting
    then some (record t {
      session = true;
      sessions = t.sessions + 1;
      connecting = true;
      conn = tcp_conn_detect conn_read (negsuc 0) t.conn;
    })
    else if what == conn_read
    then on_received cb received t
    else if has_bit conn_error what
    then lose cb t
    else some t
