-- ===== src/RelayHttp/Types.antt =====
-- relay_http.c: `struct http_relay`, the buckets of idle relays, and the calls of the connection, the
-- resolver and the event loop in the order in which they are made.
use h2_client_proxy.Base.{ℕ, Bool, Option, none, some, List, [], ◌∷◌, ◌++◌, if◌then◌else◌, Bytes}
use h2_client_proxy.Header.{Header}
use h2_client_proxy.Ep.Types.{Mask, assign}
use h2_client_proxy.RelayHttp2.Types.{RelayEvent}

-- The calls that a relay makes: of `conn_proto` on `conn`, of the resolver, and of its timers.
pub data Call : Type 0 where
  conn_create : Call
  conn_connect : Bytes → ℕ → Call
  conn_enable conn_disable : Mask → Call
  conn_write : Bytes → Call
  conn_free dns_cancel : Call
  dns_resolve : Bytes → Call
  timer_add timer_del timer_free : Call

-- `struct http_relay`. `conn`, `dns_req` and `tmr_connected` are whether the pointer is set, `body`
-- is `ptr_body` with its length, `args` the client, and `is_freed` whether `free` was called.
pub record HttpRelay : Type 0 where
  pub host : Bytes
  pub port : ℕ
  pub conn : Bool
  pub dns_req : Bool
  pub response_header : Option Header
  pub request_header : Option Header
  pub tmr_connected : Bool
  pub is_chunk_post : Bool
  pub connected : Bool
  pub in_body_callback : Bool
  pub args : Option ℕ
  pub body : Option Bytes
  pub is_idle : Bool
  pub should_free : Bool
  pub relay_status : ℕ
  pub is_freed : Bool

-- The relays by their addresses, `s_idle_relay_bucket`, and the calls, each with its relay.
pub record Relays : Type 0 where
  pub relay_at : ℕ → HttpRelay
  pub idle : ℕ → List ℕ
  pub calls : List (ℕ × Call)

abbrev pub emit : ℕ → Call → Relays → Relays
emit id c w = record w { calls = w.calls ++ (id, c) ∷ [] }

abbrev pub put : ℕ → HttpRelay → Relays → Relays
put id r w = record w { relay_at = assign w.relay_at id r }

unfoldable pub set_args : Option ℕ → HttpRelay → HttpRelay
set_args args r = record r { args = args }

unfoldable pub set_tmr_connected : Bool → HttpRelay → HttpRelay
set_tmr_connected is_set r = record r { tmr_connected = is_set }

unfoldable pub set_status : ℕ → HttpRelay → HttpRelay
set_status status r = record r { relay_status = status }

unfoldable pub set_idle : Bool → HttpRelay → HttpRelay
set_idle is_idle r = record r { is_idle = is_idle }

-- A call of `conn_proto`: with `conn` or `conn_proto` NULL it is a crash.
unfoldable pub call_conn : ℕ → Call → Relays → Option Relays
call_conn id c w = if (w.relay_at id).conn then some (emit id c w) else none

-- The client's callback `relay->cb` with the relay; it may use the operations of the relay.
abbrev pub Callback : Type 0
Callback = ℕ → RelayEvent → Relays → Option Relays
