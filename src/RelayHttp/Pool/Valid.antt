-- ===== src/RelayHttp/Pool/Valid.antt =====
-- relay_http.c: what the buckets of idle relays hold.
use h2_client_proxy.Base.{
  arith, ℕ, ◌==◌, ◌||◌, Bool, true, false, List, [], ◌∷◌, ◌++◌, ◌≡◌, refl, sym, inl, inr,
  Bool-cases,
}
use h2_client_proxy.Ep.Types.{assign}
use h2_client_proxy.RelayHttp2.Types.{status_connected}
use h2_client_proxy.RelayHttp.Types.{HttpRelay, Relays}
use h2_client_proxy.RelayHttp.Pool.{relay_count_hash, remove}

-- A relay that waits in a bucket: it is idle, connected, and its host belongs there.
pub record IsIdle (i : ℕ) (r : HttpRelay) : Type 0 where
  pub marked : r.is_idle ≡ true
  pub live : r.is_freed ≡ false
  pub has_conn : r.conn ≡ true
  pub in_bucket : relay_count_hash r.host ≡ i
  pub ready : r.relay_status ≡ status_connected

unfoldable pub is_member : ℕ → List ℕ → Bool
is_member id [] = false
is_member id (x ∷ xs) = id == x || is_member id xs

-- Every relay of the bucket waits, and stands there once.
abbrev pub Bucket : ℕ → (ℕ → HttpRelay) → List ℕ → Type 0
Bucket i f [] = Unit {0}
Bucket i f (x ∷ xs) = IsIdle i (f x) × ((is_member x xs ≡ false) × Bucket i f xs)

pub record IsPool (w : Relays) : Type 0 where
  pub buckets : (i : ℕ) → Bucket i w.relay_at (w.idle i)

or_false : (a b : Bool) → a || b ≡ false → (a ≡ false) × (b ≡ false)
or_false true b e = cc
or_false false b e = (refl, e)

pub eq_sound : (a b : ℕ) → (a == b) ≡ true → a ≡ b
eq_sound a b e = ground arith

eq_flip : (a b : ℕ) → (a == b) ≡ false → (b == a) ≡ false
eq_flip a b e = ground arith

-- A relay that is not in the bucket may change.
pub Bucket-frame :
    (i : ℕ) (f : ℕ → HttpRelay) (ids : List ℕ) (id : ℕ) (r : HttpRelay)
    → is_member id ids ≡ false
    → Bucket i f ids
    → Bucket i (assign f id r) ids
unfolding is_member
Bucket-frame i f [] id r out b = tt
Bucket-frame i f (x ∷ xs) id r out b =
    let o = or_false (id == x) (is_member id xs) out in
    (rw (o.0) b.0, (b.1.0, Bucket-frame i f xs id r o.1 b.1.1))

-- A change of a relay that leaves it as an idle relay has to be.
pub Bucket-change :
    (i : ℕ) (f : ℕ → HttpRelay) (ids : List ℕ) (id : ℕ) (r : HttpRelay)
    → (IsIdle i (f id) → IsIdle i r)
    → Bucket i f ids
    → Bucket i (assign f id r) ids
Bucket-change i f [] id r keep b = tt
Bucket-change i f (x ∷ xs) id r keep b = (
  elim (Bool-cases (id == x)) [
    | inl e ↦ rw (e) (keep (rw (eq_sound id x e) b.0))
    | inr e ↦ rw (e) b.0
  ],
  (b.1.0, Bucket-change i f xs id r keep b.1.1),
)

-- A relay that is not one that waits here is not in the bucket.
pub not_member :
    (i : ℕ) (f : ℕ → HttpRelay) (ids : List ℕ) (id : ℕ)
    → (IsIdle i (f id) → ⊥)
    → Bucket i f ids
    → is_member id ids ≡ false
unfolding is_member
not_member i f [] id other b = refl
not_member i f (x ∷ xs) id other b = elim (Bool-cases (id == x)) [
  | inl e ↦ absurd (other (rw (eq_sound id x e) b.0))
  | inr e ↦ rw (e) (not_member i f xs id other b.1.1)
]

member-remove :
    (y id : ℕ) (ids : List ℕ) → is_member y ids ≡ false → is_member y (remove id ids) ≡ false
unfolding is_member remove
member-remove y id [] e = refl
member-remove y id (x ∷ xs) e =
    let o = or_false (y == x) (is_member y xs) e in
    elim (Bool-cases (x == id)) [
      | inl t ↦ rw (t) o.1
      | inr t ↦ rw (t, o.0) (member-remove y id xs o.1)
    ]

-- What stands in a bucket once is not there after it was taken out.
pub remove-out :
    (i : ℕ) (f : ℕ → HttpRelay) (ids : List ℕ) (id : ℕ)
    → Bucket i f ids
    → (is_member id (remove id ids) ≡ false) × Bucket i f (remove id ids)
unfolding is_member remove
remove-out i f [] id b = (refl, tt)
remove-out i f (x ∷ xs) id b = elim (Bool-cases (x == id)) [
  | inl t ↦ rw (t, sym (eq_sound x id t)) (b.1.0, b.1.1)
  | inr t ↦
      let r = remove-out i f xs id b.1.1 in
      rw (t, eq_flip x id t) (r.0, (b.0, (member-remove x id xs b.1.0, r.1)))
]

member-snoc :
    (y id : ℕ) (ids : List ℕ)
    → (y == id) ≡ false
    → is_member y ids ≡ false
    → is_member y (ids ++ id ∷ []) ≡ false
unfolding is_member
member-snoc y id [] ne e = rw (ne) refl
member-snoc y id (x ∷ xs) ne e =
    let o = or_false (y == x) (is_member y xs) e in rw (o.0) (member-snoc y id xs ne o.1)

pub Bucket-snoc :
    (i : ℕ) (f : ℕ → HttpRelay) (ids : List ℕ) (id : ℕ)
    → is_member id ids ≡ false
    → IsIdle i (f id)
    → Bucket i f ids
    → Bucket i f (ids ++ id ∷ [])
unfolding is_member
Bucket-snoc i f [] id out idle b = (idle, (refl, tt))
Bucket-snoc i f (x ∷ xs) id out idle b =
    let o = or_false (id == x) (is_member id xs) out in
    (b.0, (member-snoc x id xs (eq_flip id x o.0) b.1.0, Bucket-snoc i f xs id o.1 idle b.1.1))
