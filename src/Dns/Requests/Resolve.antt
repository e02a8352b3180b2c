-- ===== src/Dns/Requests/Resolve.antt =====
-- dns.c: `dns_resolve`.
use h2_client_proxy.Base.{
  length-take, ℕ, ◌≡◌, ◌<◌, Option, none, List, [], ◌∷◌, ◌++◌, refl, ap, ◌∙◌, sym, arith, Bytes,
  c_str, length, take_all, option_cases, inl, inr, c_str-eq_of_NulFree, c_str-NulFree, take,
}
use h2_client_proxy.Ep.Types.{assign}
use h2_client_proxy.Dns.Types.{Dns, RealReq, dns_hash_str, host_of, host_size, bucket_of}
use h2_client_proxy.Dns.Cache.{dns_cache_find}
use h2_client_proxy.Dns.Message.{dns_send_req}
use h2_client_proxy.Dns.Requests.{
  find_req, dns_real_req_find, dns_real_req_add, store, scheduled, unset, dns_real_req_start,
  dns_resolve,
}
use h2_client_proxy.Dns.Requests.Table.{Unique-snoc, Fits, IsTable, put_req-snoc, assign-IsTable}
use h2_client_proxy.Dns.Requests.Preserve.{same_hash-IsTable, found-Fits, store-IsTable}

-- The text of a host that fits its array.
pub host_of_text : (host : Bytes) → length (c_str host) < host_size → host_of host ≡ c_str host
host_of_text host short = take_all host_size (c_str host) (omega (arith, short))

pub c_str-host_of :
    (host : Bytes) → length (c_str host) < host_size → c_str (host_of host) ≡ host_of host
c_str-host_of host short =
    ap c_str (host_of_text host short)
    ∙ (c_str-eq_of_NulFree (c_str host) (c_str-NulFree host) ∙ sym (host_of_text host short))

-- The request that `dns_resolve` makes.
abbrev pub new_req : Bytes → ℕ → RealReq
new_req host q = record {
  host = host_of host;
  list_reqs = q ∷ [];
  timer = scheduled;
  count_timeout = 0;
}

-- The bucket of a host, with its new request at the end.
abbrev with_new : Bytes → ℕ → Dns → ℕ → List RealReq
with_new host q d =
    let i = dns_hash_str (host_of host) in assign d.hash i (d.hash i ++ new_req host q ∷ [])

new_req-Fits :
    (host : Bytes) (q : ℕ)
    → length (c_str host) < host_size
    → Fits (dns_hash_str (host_of host)) (new_req host q)
new_req-Fits host q short = record {
  cut =
      ap (take host_size) (c_str-host_of host short)
      ∙ take_all host_size (host_of host) (omega (arith, length-take {0} host_size (c_str host)));
  bucket = refl;
  pending = refl;
}

abbrev bare_req : Bytes → RealReq
bare_req host = record { host = host_of host; list_reqs = []; timer = unset; count_timeout = 0 }

-- The table after the request was added, started and given its first user.
added-hash :
    (host : Bytes) (q : ℕ) (d : Dns) (j : ℕ)
    → find_req (host_of host) (d.hash (dns_hash_str (host_of host))) ≡ none
    → (store
          (new_req host q)
          (dns_real_req_start (bare_req host) (dns_real_req_add (bare_req host) d))).hash
        j
      ≡ with_new host q d j
unfolding dns_real_req_start dns_real_req_add
added-hash host q d j n =
    let i = dns_hash_str (host_of host) in
    let started : RealReq = record (bare_req host) { timer = scheduled } in
    ground (
      arith,
      put_req-snoc (d.hash i) (bare_req host) started refl n,
      put_req-snoc (d.hash i) started (new_req host q) refl n,
    )

-- The bucket that is searched is the one that is added to.
pub same_bucket :
    (host : Bytes)
    → length (c_str host) < host_size
    → dns_hash_str (host_of host) ≡ dns_hash_str host
same_bucket host short = ap (bucket_of 512) (c_str-host_of host short ∙ host_of_text host short)

module _ (inet_text : Bytes → Option Bytes) where
  resolve_run :
      (q : ℕ) (host : Bytes) (d : Dns)
      → inet_text host ≡ none
      → dns_cache_find host d ≡ none
      → dns_real_req_find host d ≡ none
      → dns_resolve inet_text q host d
        ≡ store
            (new_req host q)
            (dns_real_req_start (bare_req host) (dns_real_req_add (bare_req host) d))
  unfolding dns_resolve
  resolve_run q host d lit cached known = rw (dns_resolve, lit, cached, known) refl

  -- A host that has to be asked for.
  pub resolve_new :
      (q : ℕ) (host : Bytes) (d : Dns)
      → inet_text host ≡ none
      → dns_cache_find host d ≡ none
      → dns_real_req_find host d ≡ none
      → length (c_str host) < host_size
      → ((dns_resolve inet_text q host d).sent ≡ d.sent ++ dns_send_req (host_of host) ∷ [])
        × ((dns_resolve inet_text q host d).replies ≡ d.replies)
        × ((dns_resolve inet_text q host d).cache_hash ≡ d.cache_hash)
        × ((j : ℕ) → (dns_resolve inet_text q host d).hash j ≡ with_new host q d j)
  unfolding dns_resolve dns_real_req_start dns_real_req_add
  resolve_new q host d lit cached known short =
      let run = resolve_run q host d lit cached known in
      let free : find_req (host_of host) (d.hash (dns_hash_str (host_of host))) ≡ none =
        ap (λ i. find_req (host_of host) (d.hash i)) (same_bucket host short)
        ∙ unfold dns_real_req_find in known in
      (
        ap (λ x. x.sent) run,
        ap (λ x. x.replies) run,
        ap (λ x. x.cache_hash) run,
        λ j. ap (λ x. x.hash j) run ∙ added-hash host q d j free,
      )

  -- A host that fits its array.
  pub resolve-IsTable :
      (q : ℕ) (host : Bytes) (d : Dns)
      → length (c_str host) < host_size
      → IsTable d
      → IsTable (dns_resolve inet_text q host d)
  unfolding dns_resolve
  resolve-IsTable q host d short v = elim (option_cases (inet_text host)) [
    | inr (text, lit) ↦ same_hash-IsTable d (dns_resolve inet_text q host d) (ground arith) v
    | inl lit ↦ elim (option_cases (dns_cache_find host d)) [
      | inr (r, cached) ↦ same_hash-IsTable d (dns_resolve inet_text q host d) (ground arith) v
      | inl cached ↦ elim (option_cases (dns_real_req_find host d)) [
        | inr (r, known) ↦
            let f = found-Fits host d r v known in
            let joined : RealReq = record r { list_reqs = r.list_reqs ++ q ∷ [] } in
            let it : dns_resolve inet_text q host d ≡ store joined d = ground arith in
            rw it (
              store-IsTable joined d v
                (record { cut = f.cut; bucket = f.bucket; pending = f.pending }))
        | inl known ↦
            let n = resolve_new q host d lit cached known short in
            let i = dns_hash_str (host_of host) in
            let d' = dns_resolve inet_text q host d in
            let f = new_req-Fits host q short in
            let free : find_req (host_of host) (d.hash i) ≡ none =
              ap (λ k. find_req (host_of host) (d.hash k)) (same_bucket host short)
              ∙ unfold dns_real_req_find in known in
            same_hash-IsTable (record d { hash = d'.hash }) d' refl
              (assign-IsTable d d'.hash i (d.hash i ++ new_req host q ∷ []) v n.3
                (Unique-snoc i (d.hash i) (new_req host q) (v.unique i) f free))
      ]
    ]
  ]
