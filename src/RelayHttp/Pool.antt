-- ===== src/RelayHttp/Pool.antt =====
-- relay_http.c: the relays that wait for another request, `relay_create` and `relay_free`. The
-- address that `calloc` returns is an argument. Memory that is used after `free` is a crash.
pub mod Valid
pub mod Keeps
pub mod Create
use h2_client_proxy.Base.{
  ℕ, ◌+◌, ◌-◌, ◌%◌, ◌^◌, ◌==◌, ◌&&◌, not, Bool, true, false, Option, none, some, List, [], ◌∷◌,
  ◌++◌, ltb, if◌then◌else◌, take, Bytes, c_str, str_case_eq,
}
use h2_client_proxy.Ep.Types.{assign, ep_read}
use h2_client_proxy.RelayHttp2.Types.{status_connecting, status_connected}
use h2_client_proxy.RelayHttp.Types.{
  set_args, set_tmr_connected, set_idle, HttpRelay, Relays, emit, put, call_conn, conn_enable,
  conn_free, dns_cancel, dns_resolve, timer_add, timer_del, timer_free,
}

-- The sum of the characters, which are signed, in 32 bits.
char_sum : Bytes → ℕ
char_sum [] = 0
char_sum (c ∷ cs) = (if ltb c 128 then c else 2 ^ 32 + c - 256) + char_sum cs

unfoldable pub relay_count_hash : Bytes → ℕ
unfolding char_sum
relay_count_hash host = char_sum (c_str host) % 2 ^ 32 % 512

-- Every bucket is empty.
unfoldable pub http_relay_sys_init : Relays → Relays
http_relay_sys_init w = record w { idle = λ _. [] }

-- The assertions of `relay_sys_reuse_relay`, on a relay that is not freed.
unfoldable pub can_reuse : HttpRelay → Bool
can_reuse r = not r.is_freed && (not r.should_free && (not r.is_idle && (not r.dns_req && r.conn)))

abbrev pub idle_relay : HttpRelay → HttpRelay
idle_relay r = record r {
  relay_status = status_connected;
  args = none;
  is_idle = true;
  response_header = none;
}

unfoldable pub relay_sys_reuse_relay : ℕ → Relays → Option Relays
unfolding can_reuse
relay_sys_reuse_relay id w =
    let r = w.relay_at id in
    let hash = relay_count_hash r.host in
    if can_reuse r
    then some (record w {
      relay_at = assign w.relay_at id (idle_relay r);
      idle = assign w.idle hash (w.idle hash ++ id ∷ []);
    })
    else none

-- The test of the loop.
unfoldable pub is_for : Bytes → ℕ → HttpRelay → Bool
is_for host port r = str_case_eq r.host host && r.port == port

unfoldable pub find_idle : Bytes → ℕ → (ℕ → HttpRelay) → List ℕ → Option ℕ
unfolding is_for
find_idle host port relay_at [] = none
find_idle host port relay_at (id ∷ rest) =
    if is_for host port (relay_at id) then some id else find_idle host port relay_at rest

-- `list_del` of a relay.
unfoldable pub remove : ℕ → List ℕ → List ℕ
remove id [] = []
remove id (x ∷ rest) = if x == id then rest else x ∷ remove id rest

unfoldable pub take_out : ℕ → ℕ → Relays → Relays
unfolding remove
take_out hash id w = record w {
  relay_at = assign w.relay_at id (set_idle false (w.relay_at id));
  idle = assign w.idle hash (remove id (w.idle hash));
}

-- The relay that is found, with the relays after it was taken out.
unfoldable pub relay_sys_find_alive_relay : Bytes → ℕ → Relays → Option ℕ × Relays
unfolding find_idle
relay_sys_find_alive_relay host port w =
    let hash = relay_count_hash host in
    elim (find_idle host port w.relay_at (w.idle hash)) [
      | none ↦ (none, w)
      | some id ↦ (some id, take_out hash id w)
    ]

-- A connection that was made free, a request to the resolver cancelled, and a timer deleted: the
-- flag of a timer that was added stays set.
unfoldable pub release : ℕ → HttpRelay → Relays → Relays
release id r w =
    let w1 = if r.conn then emit id conn_free w else w in
    let w2 = if r.dns_req then emit id dns_cancel w1 else w1 in
    if r.tmr_connected then emit id timer_free (emit id timer_del w2) else w2

unfoldable pub relay_free : ℕ → Relays → Option Relays
unfolding release remove
relay_free id w =
    let r = w.relay_at id in
    let hash = relay_count_hash r.host in
    let w1 =
      if r.is_idle then record w { idle = assign w.idle hash (remove id (w.idle hash)) } else w in
    let w2 = release id r w1 in
    if r.is_freed then none else some (put id (record r { is_freed = true }) w2)

abbrev pub relay_close : ℕ → Relays → Option Relays
relay_close id w = relay_free id w

-- `calloc`, the host and the port, and the request to the resolver.
unfoldable pub new_relay : Bytes → ℕ → HttpRelay
new_relay host port = record {
  host = take 255 (c_str host);
  port = port;
  conn = false;
  dns_req = true;
  response_header = none;
  request_header = none;
  tmr_connected = false;
  is_chunk_post = false;
  connected = false;
  in_body_callback = false;
  args = none;
  body = none;
  is_idle = false;
  should_free = false;
  relay_status = status_connecting;
  is_freed = false;
}

-- With a relay at hand that is connected, reading is enabled and a timer reports it.
unfoldable pub attach : ℕ → ℕ → Relays → Option Relays
attach id args w =
    let w1 = put id (set_args (some args) (w.relay_at id)) w in
    let enabled : Option Relays = elim (call_conn id (conn_enable ep_read) w1) [
      | none ↦ none
      | some w2 ↦ some (emit id timer_add (put id (set_tmr_connected true (w2.relay_at id)) w2))
    ] in
    if (w.relay_at id).relay_status == status_connected then enabled else some w1

-- The relay with the relays after it; a new one has the address `new`.
unfoldable pub relay_create : ℕ → Bytes → ℕ → ℕ → Relays → Option (ℕ × Relays)
unfolding attach new_relay
relay_create new host port args w =
    let found = relay_sys_find_alive_relay host port w in
    elim found.0 [
      | none ↦
          elim (attach new args (emit new (dns_resolve host) (put new (new_relay host port) w))) [
            | none ↦ none
            | some w' ↦ some (new, w')
          ]
      | some id ↦ elim (attach id args found.1) [ none ↦ none | some w' ↦ some (id, w') ]
    ]
