-- ===== src/RelayHttp/Pool/Keeps.antt =====
-- relay_http.c: the operations on relays keep the buckets.
use h2_client_proxy.Base.{
  if-some, if-none, ◌⊎◌, arith, ℕ, ◌==◌, Bool, true, false, Option, some, List, [], ◌∷◌, ◌++◌, ◌≡◌,
  refl, ap, sym, ◌∙◌, inl, inr, Bool-cases, if◌then◌else◌, Bytes,
}
use h2_client_proxy.Ep.Types.{assign}
use h2_client_proxy.RelayHttp.Types.{HttpRelay, Relays, put}
use h2_client_proxy.RelayHttp.Pool.{
  relay_count_hash, remove, can_reuse, idle_relay, relay_sys_reuse_relay, find_idle, is_for,
  release, relay_free,
}
use h2_client_proxy.RelayHttp.Pool.Valid.{
  IsPool, IsIdle, Bucket, is_member, Bucket-frame, Bucket-change, Bucket-snoc, not_member,
  remove-out, eq_sound,
}

pub assign_same {ℓ} : {A : Type ℓ} (f : ℕ → A) (i : ℕ) (a : A) → assign f i a i ≡ a
assign_same f i a = ground arith

eq_absurd : (a b : ℕ) → (a == b) ≡ false → a ≡ b → ⊥
eq_absurd a b e f = ground arith

first-some :
    (c : Bool) (x id : ℕ) (o : Option ℕ)
    → (if c then some x else o) ≡ some id
    → ((c ≡ true) × (x ≡ id)) ⊎ (o ≡ some id)
first-some true x id o e = inl (refl, cc)
first-some false x id o e = inr e

pub same-IsPool :
    (w w' : Relays) → w'.relay_at ≡ w.relay_at → w'.idle ≡ w.idle → IsPool w → IsPool w'
same-IsPool w w' e f v = record { buckets = λ i. rw (e, f) (v.buckets i) }

pub put-IsPool :
    (id : ℕ) (r : HttpRelay) (w : Relays)
    → ((i : ℕ) → IsIdle i (w.relay_at id) → IsIdle i r)
    → IsPool w
    → IsPool (put id r w)
put-IsPool id r w keep v = record {
  buckets = λ i. Bucket-change i w.relay_at (w.idle i) id r (keep i) (v.buckets i);
}

-- A relay that is not idle stands in no bucket.
absent :
    (id : ℕ) (w : Relays)
    → IsPool w
    → (w.relay_at id).is_idle ≡ false
    → (j : ℕ) → is_member id (w.idle j) ≡ false
absent id w v e j =
    not_member j w.relay_at (w.idle j) id (λ x. absurd (let m = x.marked in cc)) (v.buckets j)

pub put_other-IsPool :
    (id : ℕ) (r : HttpRelay) (w : Relays)
    → (w.relay_at id).is_idle ≡ false
    → IsPool w
    → IsPool (put id r w)
put_other-IsPool id r w e v = record {
  buckets = λ i. Bucket-frame i w.relay_at (w.idle i) id r (absent id w v e i) (v.buckets i);
}

can_reuse-facts :
    (r : HttpRelay)
    → can_reuse r ≡ true
    → (r.is_freed ≡ false) × (r.is_idle ≡ false) × (r.conn ≡ true)
unfolding can_reuse
can_reuse-facts r e = ground arith

reused :
    (id : ℕ) (w : Relays)
    → can_reuse (w.relay_at id) ≡ true
    → IsPool w
    → let r = w.relay_at id in
      let hash = relay_count_hash r.host in
      IsPool (record w {
        relay_at = assign w.relay_at id (idle_relay r);
        idle = assign w.idle hash (w.idle hash ++ id ∷ []);
      })
reused id w ok v =
    let r = w.relay_at id in
    let hash = relay_count_hash r.host in
    let facts = can_reuse-facts r ok in
    let f = assign w.relay_at id (idle_relay r) in
    let at : f id ≡ idle_relay r = assign_same w.relay_at id (idle_relay r) in
    let kept = λ (j : ℕ).
      Bucket-frame j w.relay_at (w.idle j) id (idle_relay r) (absent id w v facts.1 j)
        (v.buckets j) in
    let idle : (j : ℕ) → hash ≡ j → IsIdle j (f id) = λ j h.
      rw at (record {
        marked = refl;
        live = facts.0;
        has_conn = facts.2;
        in_bucket = h;
        ready = refl;
      }) in
    record {
      buckets = λ j. elim (Bool-cases (hash == j)) [
        | inl e ↦
            rw (e, eq_sound hash j e)
              (Bucket-snoc j f (w.idle j) id (absent id w v facts.1 j) (idle j (eq_sound hash j e))
                (kept j))
        | inr e ↦ rw (e) (kept j)
      ];
    }

pub relay_sys_reuse_relay-IsPool :
    (id : ℕ) (w w' : Relays) → relay_sys_reuse_relay id w ≡ some w' → IsPool w → IsPool w'
unfolding relay_sys_reuse_relay
relay_sys_reuse_relay-IsPool id w w' e v =
    let g = if-some (can_reuse (w.relay_at id)) _ w' e in rw (sym g.1) (reused id w g.0 v)

-- After a relay was taken out of its bucket it stands in no bucket.
pub gone :
    (h id : ℕ) (w : Relays)
    → IsPool w
    → relay_count_hash (w.relay_at id).host ≡ h
    → (j : ℕ)
    → let ids = assign w.idle h (remove id (w.idle h)) j in
      (is_member id ids ≡ false) × Bucket j w.relay_at ids
gone h id w v at j = elim (Bool-cases (h == j)) [
  | inl e ↦ rw (e, eq_sound h j e) (remove-out j w.relay_at (w.idle j) id (v.buckets j))
  | inr e ↦ rw (e) (
    not_member j w.relay_at (w.idle j) id (λ x. eq_absurd h j e (sym at ∙ x.in_bucket))
        (v.buckets j),
    v.buckets j,
  )
]

release-same :
    (id : ℕ) (r : HttpRelay) (w : Relays)
    → ((release id r w).relay_at ≡ w.relay_at) × ((release id r w).idle ≡ w.idle)
unfolding release
release-same id r w = ground arith

pub find_idle-IsIdle :
    (host : Bytes) (port i : ℕ) (f : ℕ → HttpRelay) (ids : List ℕ) (id : ℕ)
    → find_idle host port f ids ≡ some id
    → Bucket i f ids
    → IsIdle i (f id) × (is_for host port (f id) ≡ true)
unfolding find_idle
find_idle-IsIdle host port i f [] id e b = cc
find_idle-IsIdle host port i f (x ∷ xs) id e b =
    elim (first-some (is_for host port (f x)) x id (find_idle host port f xs) e) [
      | inl (t, same) ↦ rw (sym same) (b.0, t)
      | inr rest ↦ find_idle-IsIdle host port i f xs id rest b.1.1
    ]

-- The buckets after a relay was unlinked, if it is idle, written twice and released.
freed-IsPool :
    (c : Bool) (id h : ℕ) (r r1 r2 : HttpRelay) (w : Relays)
    → IsPool w
    → (w.relay_at id).is_idle ≡ c
    → relay_count_hash (w.relay_at id).host ≡ h
    → let x = put id r1 w in
      IsPool (
        put id r2 (
          release id r
            (if c then record x { idle = assign x.idle h (remove id (x.idle h)) } else x)))
freed-IsPool true id h r r1 r2 w v c at =
    let x = record w {
      relay_at = assign w.relay_at id r1;
      idle = assign w.idle h (remove id (w.idle h));
    } in
    let same = release-same id r x in
    same-IsPool (put id r2 x) (put id r2 (release id r x)) (ap (λ f. assign f id r2) same.0) same.1
      (record {
        buckets = λ j.
            let g = gone h id w v at j in
            let ids = x.idle j in
            Bucket-frame j x.relay_at ids id r2 g.0 (Bucket-frame j w.relay_at ids id r1 g.0 g.1);
      })
freed-IsPool false id h r r1 r2 w v c at =
    let x = put id r1 w in
    let same = release-same id r x in
    same-IsPool (put id r2 x) (put id r2 (release id r x)) (ap (λ f. assign f id r2) same.0) same.1
      (record {
        buckets = λ j.
            let out = absent id w v c j in
            let ids = w.idle j in
            Bucket-frame j x.relay_at ids id r2 out
              (Bucket-frame j w.relay_at ids id r1 out (v.buckets j));
      })

-- A relay that is freed, after it was changed, leaves the others as they are.
pub relay_free-IsPool :
    (id : ℕ) (r1 : HttpRelay) (w w' : Relays)
    → IsPool w
    → r1.host ≡ (w.relay_at id).host
    → r1.is_idle ≡ (w.relay_at id).is_idle
    → relay_free id (put id r1 w) ≡ some w'
    → IsPool w'
unfolding relay_free
relay_free-IsPool id r1 w w' v host idle e =
    let x = put id r1 w in
    let at : x.relay_at id ≡ r1 = assign_same w.relay_at id r1 in
    let g = if-none (x.relay_at id).is_freed _ w' e in
    rw (sym g.1) (
      freed-IsPool (x.relay_at id).is_idle id (relay_count_hash (x.relay_at id).host)
        (x.relay_at id) r1 (record (x.relay_at id) { is_freed = true }) w v
        (sym idle ∙ ap (λ r. r.is_idle) (sym at))
        (ap relay_count_hash (sym host ∙ ap (λ r. r.host) (sym at))))
