-- ===== src/RelayHttp/Pool/Create.antt =====
-- relay_http.c: the relay that `relay_create` gives.
use h2_client_proxy.Base.{
  Option-cases, ℕ, ◌⊎◌, true, false, some, ◌≡◌, refl, ap, ◌∙◌, inl, inr, Bytes,
}
use h2_client_proxy.Ep.Types.{assign, ep_read}
use h2_client_proxy.RelayHttp2.Types.{status_connected, status_connecting}
use h2_client_proxy.RelayHttp.Types.{
  set_args, set_tmr_connected, set_idle, HttpRelay, Relays, put, emit, call_conn, conn_enable,
  timer_add, dns_resolve, Call,
}
use h2_client_proxy.RelayHttp.Pool.{
  relay_count_hash, remove, find_idle, is_for, take_out, attach, relay_create, new_relay,
  relay_sys_find_alive_relay,
}
use h2_client_proxy.RelayHttp.Pool.Valid.{IsPool, IsIdle, is_member, Bucket-frame}
use h2_client_proxy.RelayHttp.Pool.Keeps.{
  assign_same, put_other-IsPool, gone, same-IsPool, find_idle-IsIdle,
}

take_out-IsPool :
    (h id : ℕ) (w : Relays)
    → IsPool w
    → relay_count_hash (w.relay_at id).host ≡ h
    → IsPool (take_out h id w)
unfolding take_out
take_out-IsPool h id w v at = record {
  buckets = λ j.
      let g = gone h id w v at j in
      Bucket-frame j w.relay_at (assign w.idle h (remove id (w.idle h)) j) id
        (set_idle false (w.relay_at id)) g.0 g.1;
}

-- The relay gets its client.
abbrev owned : ℕ → ℕ → Relays → Relays
owned id args w = put id (set_args (some args) (w.relay_at id)) w

abbrev pub woken : ℕ → ℕ → Relays → Relays
woken id args w =
    let w1 = emit id (conn_enable ep_read) (owned id args w) in
    emit id timer_add (put id (set_tmr_connected true (w1.relay_at id)) w1)

attach_connecting :
    (id args : ℕ) (w : Relays)
    → (w.relay_at id).relay_status ≡ status_connecting
    → attach id args w ≡ some (owned id args w)
unfolding attach
attach_connecting id args w e = rw (attach, e) refl

pub call_conn-open :
    (id : ℕ) (c : Call) (w : Relays)
    → (w.relay_at id).conn ≡ true
    → call_conn id c w ≡ some (emit id c w)
unfolding call_conn
call_conn-open id c w e = rw (call_conn, e) refl

-- The relay after it got its client.
owned_at :
    (id args : ℕ) (w : Relays)
    → (owned id args w).relay_at id ≡ set_args (some args) (w.relay_at id)
owned_at id args w = assign_same w.relay_at id (set_args (some args) (w.relay_at id))

owned-conn :
    (id args : ℕ) (w : Relays) → ((owned id args w).relay_at id).conn ≡ (w.relay_at id).conn
unfolding set_args
owned-conn id args w = ap (λ r. r.conn) (owned_at id args w)

attach_connected :
    (id args : ℕ) (w : Relays)
    → (w.relay_at id).relay_status ≡ status_connected
    → (w.relay_at id).conn ≡ true
    → attach id args w ≡ some (woken id args w)
unfolding attach
attach_connected id args w e c =
    rw
      (
        attach,
        call_conn-open id (conn_enable ep_read) (owned id args w) (owned-conn id args w ∙ c),
        e,
      )
      refl

-- A relay that is made or found: the client is set and it waits no more; it is the new one, which
-- is connecting, or one for this host and port that was idle, and is connected.
pub record IsReady (new : ℕ) (host : Bytes) (port args : ℕ) (w : Relays) (id : ℕ) (w' : Relays)
    : Type 0 where
  pub pool : IsPool w'
  pub owner : (w'.relay_at id).args ≡ some args
  pub in_use : (w'.relay_at id).is_idle ≡ false
  pub new_or_idle :
      ((id ≡ new) × ((w'.relay_at id).relay_status ≡ status_connecting))
      ⊎ ((is_for host port (w.relay_at id) ≡ true)
          × ((w'.relay_at id).relay_status ≡ status_connected)
          × ((w'.relay_at id).conn ≡ true))

new_at :
    (new : ℕ) (host : Bytes) (port : ℕ) (w : Relays)
    → ((emit new (dns_resolve host) (put new (new_relay host port) w)).relay_at new).relay_status
      ≡ status_connecting
unfolding new_relay
new_at new host port w = ap (λ r. r.relay_status) (assign_same w.relay_at new (new_relay host port))

fresh_put-IsPool :
    (id : ℕ) (r : HttpRelay) (w : Relays)
    → ((i : ℕ) → is_member id (w.idle i) ≡ false)
    → IsPool w
    → IsPool (put id r w)
fresh_put-IsPool id r w fresh v = record {
  buckets = λ i. Bucket-frame i w.relay_at (w.idle i) id r (fresh i) (v.buckets i);
}

new-IsReady :
    (new : ℕ) (host : Bytes) (port args : ℕ) (w : Relays)
    → IsPool w
    → ((i : ℕ) → is_member new (w.idle i) ≡ false)
    → IsReady new host port args w new
        (owned new args (emit new (dns_resolve host) (put new (new_relay host port) w)))
unfolding set_args new_relay
new-IsReady new host port args w v fresh =
    let w1 = emit new (dns_resolve host) (put new (new_relay host port) w) in
    let at : w1.relay_at new ≡ new_relay host port =
      assign_same w.relay_at new (new_relay host port) in
    let at2 : (owned new args w1).relay_at new ≡ set_args (some args) (new_relay host port) =
      owned_at new args w1 ∙ ap (set_args (some args)) at in
    record {
      pool = fresh_put-IsPool new (set_args (some args) (w1.relay_at new)) w1 fresh (
          same-IsPool (put new (new_relay host port) w) w1 refl refl
            (fresh_put-IsPool new (new_relay host port) w fresh v));
      owner = ap (λ r. r.args) at2;
      in_use = ap (λ r. r.is_idle) at2;
      new_or_idle = inl (refl, ap (λ r. r.relay_status) at2);
    }

pub take_out_at :
    (h id : ℕ) (w : Relays) → (take_out h id w).relay_at id ≡ set_idle false (w.relay_at id)
unfolding take_out
take_out_at h id w = assign_same w.relay_at id (set_idle false (w.relay_at id))

pub woken_at :
    (id args : ℕ) (w : Relays)
    → (woken id args w).relay_at id ≡ set_tmr_connected true (set_args (some args) (w.relay_at id))
woken_at id args w =
    let w1 = owned id args w in
    assign_same w1.relay_at id (set_tmr_connected true (w1.relay_at id))
    ∙ ap (set_tmr_connected true) (owned_at id args w)

woken-IsPool :
    (id args : ℕ) (w : Relays)
    → (w.relay_at id).is_idle ≡ false
    → IsPool w
    → IsPool (woken id args w)
unfolding set_args
woken-IsPool id args w e v =
    let w1 = owned id args w in
    let r = set_tmr_connected true (w1.relay_at id) in
    let v1 : IsPool w1 = put_other-IsPool id (set_args (some args) (w.relay_at id)) w e v in
    let e1 : (w1.relay_at id).is_idle ≡ false = ap (λ r. r.is_idle) (owned_at id args w) ∙ e in
    same-IsPool (put id r w1) (woken id args w) refl refl (put_other-IsPool id r w1 e1 v1)

found-IsReady :
    (new : ℕ) (host : Bytes) (port args h id : ℕ) (w : Relays)
    → IsPool w
    → IsIdle h (w.relay_at id)
    → is_for host port (w.relay_at id) ≡ true
    → IsReady new host port args w id (woken id args (take_out h id w))
unfolding set_args set_tmr_connected set_idle
found-IsReady new host port args h id w v idle t =
    let w1 = take_out h id w in
    let at : w1.relay_at id ≡ set_idle false (w.relay_at id) = take_out_at h id w in
    let all : (woken id args w1).relay_at id
        ≡ set_tmr_connected true (set_args (some args) (set_idle false (w.relay_at id))) =
      woken_at id args w1 ∙ ap (λ r. set_tmr_connected true (set_args (some args) r)) at in
    record {
      pool =
          woken-IsPool id args w1 (ap (λ r. r.is_idle) at)
            (take_out-IsPool h id w v idle.in_bucket);
      owner = ap (λ r. r.args) all;
      in_use = ap (λ r. r.is_idle) all;
      new_or_idle =
          inr (t, ap (λ r. r.relay_status) all ∙ idle.ready, ap (λ r. r.conn) all ∙ idle.has_conn);
    }

found-attach :
    (h id args : ℕ) (w : Relays)
    → IsIdle h (w.relay_at id)
    → attach id args (take_out h id w) ≡ some (woken id args (take_out h id w))
unfolding set_idle
found-attach h id args w idle =
    let at = take_out_at h id w in
    attach_connected id args (take_out h id w) (ap (λ r. r.relay_status) at ∙ idle.ready)
      (ap (λ r. r.conn) at ∙ idle.has_conn)

-- A relay that waits for this host is taken out and woken.
pub relay_create_found :
    (new : ℕ) (host : Bytes) (port args id : ℕ) (w : Relays)
    → let h = relay_count_hash host in
      find_idle host port w.relay_at (w.idle h) ≡ some id
      → IsIdle h (w.relay_at id)
      → relay_create new host port args w ≡ some (id, woken id args (take_out h id w))
unfolding relay_create relay_sys_find_alive_relay
relay_create_found new host port args id w e idle =
    let h = relay_count_hash host in
    let found : relay_sys_find_alive_relay host port w ≡ (some id, take_out h id w) =
      rw (relay_sys_find_alive_relay, e) refl in
    rw (relay_create, found, found, found-attach h id args w idle) refl

-- If the buckets hold idle relays and the memory of a new relay is not that of one of them, then
-- `relay_create` is no crash, and the relay that it gives is ready: the client is set and it stands
-- in no bucket; it is the new one, which is connecting, or one for this host and port that was idle,
-- whose connection is open.
pub relay_create-IsReady :
    (new : ℕ) (host : Bytes) (port args : ℕ) (w : Relays)
    → IsPool w
    → ((i : ℕ) → is_member new (w.idle i) ≡ false)
    → (id : ℕ) × (w' : Relays) × (relay_create new host port args w ≡ some (id, w'))
      × IsReady new host port args w id w'
unfolding relay_create relay_sys_find_alive_relay
relay_create-IsReady new host port args w v fresh =
    let h = relay_count_hash host in
    elim (Option-cases (find_idle host port w.relay_at (w.idle h))) [
      | inl e ↦
          let w1 = emit new (dns_resolve host) (put new (new_relay host port) w) in
          (
            new,
            owned new args w1,
            rw
                (
                  relay_create,
                  relay_sys_find_alive_relay,
                  e,
                  attach_connecting new args w1 (new_at new host port w),
                )
                refl,
            new-IsReady new host port args w v fresh,
          )
      | inr (id, e) ↦
          let facts = find_idle-IsIdle host port h w.relay_at (w.idle h) id e (v.buckets h) in
          let w1 = take_out h id w in
          (
            id,
            woken id args w1,
            relay_create_found new host port args id w e facts.0,
            found-IsReady new host port args h id w v facts.0 facts.1,
          )
    ]
