-- ===== src/Dns/Requests/Table.antt =====
-- dns.c: the table of requests holds at most one request for each host, in the bucket of the host,
-- and its timer is pending.
use h2_client_proxy.Base.{
  ℕ, ◌==◌, ◌≡◌, true, none, some, List, [], ◌∷◌, ◌++◌, refl, ap, ◌∙◌, sym, arith, if◌then◌else◌,
  Bytes, str_eq, str_eq→eq, str_eq_refl, Bool-cases, inl, inr,
}
use h2_client_proxy.Ep.Types.{assign}
use h2_client_proxy.Dns.Types.{Dns, RealReq, dns_hash_str, host_of}
use h2_client_proxy.Dns.Requests.{find_req, put_req, remove_req}

-- A request that may stand in the bucket `i`.
pub record Fits (i : ℕ) (r : RealReq) : Type 0 where
  pub cut : host_of r.host ≡ r.host
  pub bucket : dns_hash_str r.host ≡ i
  pub pending : r.timer.pending ≡ true

abbrev pub Unique : ℕ → List RealReq → Type 0
Unique i [] = Unit {0}
Unique i (r ∷ rs) = Fits i r × (find_req r.host rs ≡ none) × Unique i rs

pub record IsTable (d : Dns) : Type 0 where
  pub unique : (i : ℕ) → Unique i (d.hash i)

str_eq-flip : (a b : Bytes) → str_eq a b ≡ str_eq b a
unfolding str_eq
str_eq-flip [] [] = refl
str_eq-flip [] (y ∷ b) = refl
str_eq-flip (x ∷ a) [] = refl
str_eq-flip (x ∷ a) (y ∷ b) = ground (arith, str_eq-flip a b)

pub find_req-snoc :
    (k : Bytes) (rs : List RealReq) (r : RealReq)
    → find_req k (rs ++ r ∷ [])
      ≡ elim (find_req k rs) [ some f ↦ some f | none ↦ if str_eq r.host k then some r else none ]
unfolding find_req
find_req-snoc k [] r = refl
find_req-snoc k (p ∷ rs) r = ground (arith, find_req-snoc k rs r)

pub find_req-put :
    (k : Bytes) (rs : List RealReq) (r : RealReq)
    → find_req k (put_req r rs)
      ≡ elim (find_req k rs) [ some f ↦ if str_eq r.host k then some r else some f | none ↦ none ]
unfolding find_req put_req
find_req-put k [] r = refl
find_req-put k (p ∷ rs) r = ground (
  arith,
  find_req-put k rs r,
  str_eq→eq p.host r.host,
  str_eq→eq p.host k,
  str_eq→eq r.host k,
  str_eq_refl k,
)

pub find_req-remove :
    (k host : Bytes) (i : ℕ) (rs : List RealReq)
    → Unique i rs
    → find_req k (remove_req host rs) ≡ (if str_eq host k then none else find_req k rs)
unfolding find_req remove_req
find_req-remove k host i [] u = ground arith
find_req-remove k host i (p ∷ rs) u = ground (
  arith,
  find_req-remove k host i rs u.2,
  u.1,
  str_eq→eq p.host host,
  str_eq→eq p.host k,
  str_eq→eq host k,
  str_eq_refl k,
)

pub Unique-snoc :
    (i : ℕ) (rs : List RealReq) (r : RealReq)
    → Unique i rs
    → Fits i r
    → find_req r.host rs ≡ none
    → Unique i (rs ++ r ∷ [])
unfolding find_req
Unique-snoc i [] r u f e = (f, refl, tt)
Unique-snoc i (p ∷ rs) r u f e =
    let rest : find_req r.host rs ≡ none = ground arith in
    (
      u.0,
      ground (arith, find_req-snoc p.host rs r, u.1, str_eq-flip p.host r.host),
      Unique-snoc i rs r u.2 f rest,
    )

pub Unique-put :
    (i : ℕ) (rs : List RealReq) (r : RealReq) → Unique i rs → Fits i r → Unique i (put_req r rs)
unfolding put_req
Unique-put i [] r u f = tt
Unique-put i (p ∷ rs) r u f = elim (Bool-cases (str_eq p.host r.host)) [
  | inl same ↦
      rw same ((f, ap (λ h. find_req h rs) (sym (str_eq→eq p.host r.host same)) ∙ u.1, u.2))
  | inr other ↦
      rw other ((u.0, ground (arith, find_req-put p.host rs r, u.1), Unique-put i rs r u.2 f))
]

pub Unique-remove :
    (i : ℕ) (host : Bytes) (rs : List RealReq) → Unique i rs → Unique i (remove_req host rs)
unfolding remove_req
Unique-remove i host [] u = tt
Unique-remove i host (p ∷ rs) u = elim (Bool-cases (str_eq p.host host)) [
  | inl same ↦ rw same u.2
  | inr other ↦ rw other (
      (u.0, ground (arith, find_req-remove p.host host i rs u.2, u.1), Unique-remove i host rs u.2))
]

pub find_req-host :
    (k : Bytes) (rs : List RealReq) (r : RealReq) → find_req k rs ≡ some r → r.host ≡ k
unfolding find_req
find_req-host k [] r e = cc
find_req-host k (p ∷ rs) r e = ground (arith, find_req-host k rs r, str_eq→eq p.host k)

pub find_req-Fits :
    (k : Bytes) (i : ℕ) (rs : List RealReq) (r : RealReq)
    → Unique i rs
    → find_req k rs ≡ some r
    → Fits i r
unfolding find_req
find_req-Fits k i [] r u e = cc
find_req-Fits k i (p ∷ rs) r u e = elim (Bool-cases (str_eq p.host k)) [
  | inl same ↦ let it : p ≡ r = ground arith in rw (sym it) u.0
  | inr other ↦ find_req-Fits k i rs r u.2 (ground arith)
]

-- The last request of a bucket is written over.
pub put_req-snoc :
    (rs : List RealReq) (old r : RealReq)
    → old.host ≡ r.host
    → find_req r.host rs ≡ none
    → put_req r (rs ++ old ∷ []) ≡ rs ++ r ∷ []
unfolding put_req find_req
put_req-snoc [] old r e n = ground (arith, str_eq_refl r.host)
put_req-snoc (p ∷ rs) old r e n = ground (arith, put_req-snoc rs old r e)

-- Another bucket for one index.
pub assign-IsTable :
    (d : Dns) (hash : ℕ → List RealReq) (i : ℕ) (rs : List RealReq)
    → IsTable d
    → ((j : ℕ) → hash j ≡ assign d.hash i rs j)
    → Unique i rs
    → IsTable (record d { hash = hash })
assign-IsTable d hash i rs v e u = record {
  unique = λ j. rw (e j) (elim (Bool-cases (i == j)) [
    | inl t ↦ let ij : i ≡ j = ground arith in rw (t, sym ij) u
    | inr t ↦ rw t (v.unique j)
  ]);
}
