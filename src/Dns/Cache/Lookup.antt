-- ===== src/Dns/Cache/Lookup.antt =====
-- dns.c: what is found in the cache after an answer was added.
use h2_client_proxy.Base.{
  ℕ, str_eq→eq, Bool-cases, ◌<◌, ◌≡◌, none, some, List, [], ◌∷◌, ◌++◌, refl, ap, ◌∙◌, sym, arith,
  length, Bytes, c_str, str_eq, option_cases, inl, inr, if◌then◌else◌,
}
use h2_client_proxy.Ep.Types.{assign}
use h2_client_proxy.Dns.Types.{bucket_of, Dns, CacheRecord, dns_hash_cache_str, host_size}
use h2_client_proxy.Dns.Cache.{stored, find_record, dns_cache_find, dns_cache_add, new_record}

find_record-snoc :
    (k : Bytes) (rs : List CacheRecord) (new : CacheRecord)
    → find_record k (rs ++ new ∷ []) ≡ elim (find_record k rs) [
      | some r ↦ some r
      | none ↦ if str_eq new.host k then some new else none
    ]
unfolding find_record
find_record-snoc k [] new = refl
find_record-snoc k (p ∷ rs) new = ground (arith, find_record-snoc k rs new)

-- Only the text of a host matters.
dns_cache_find-c_str :
    (a b : Bytes) (d : Dns) → c_str a ≡ c_str b → dns_cache_find a d ≡ dns_cache_find b d
unfolding dns_cache_find
dns_cache_find-c_str a b d e = ap (λ t. find_record t (d.cache_hash (bucket_of 4096 t))) e

-- A bucket, of the text `k`, after a record was put at the end of that of the text `t`.
bucket-assign :
    (k t : Bytes) (new : CacheRecord) (cache : ℕ → List CacheRecord)
    → new.host ≡ t
    → find_record k
        (assign cache (bucket_of 4096 t) (cache (bucket_of 4096 t) ++ new ∷ []) (bucket_of 4096 k))
      ≡ elim (find_record k (cache (bucket_of 4096 k))) [
        | some r ↦ some r
        | none ↦ if str_eq t k then some new else none
      ]
bucket-assign k t new cache e = elim (Bool-cases (str_eq t k)) [
  | inl same ↦
      let text : t ≡ k = str_eq→eq t k same in
      let here : bucket_of 4096 t ≡ bucket_of 4096 k = ap (bucket_of 4096) text in
      let at : cache (bucket_of 4096 t) ≡ cache (bucket_of 4096 k) = ap cache here in
      ground (arith, find_record-snoc k (cache (bucket_of 4096 k)) new)
  | inr other ↦
      let at : bucket_of 4096 t ≡ bucket_of 4096 k
          → cache (bucket_of 4096 t) ≡ cache (bucket_of 4096 k) =
        λ x. ap cache x in
      ground (arith, find_record-snoc k (cache (bucket_of 4096 t)) new)
]

new_record-host :
    (host ip cname : Bytes)
    → length (c_str host) < host_size
    → (new_record host ip cname).host ≡ c_str host
unfolding new_record stored
new_record-host host ip cname short = ground (arith, short)

-- The cache after an answer was added, for a host of less than 256 bytes, which ends in its array: a
-- host that was found is
-- found as before, and of the others the host of the answer is found, with its record.
pub dns_cache_find-dns_cache_add :
    (h host ip cname : Bytes) (d : Dns)
    → length (c_str host) < host_size
    → dns_cache_find h (dns_cache_add host ip cname d) ≡ elim (dns_cache_find h d) [
      | some r ↦ some r
      | none ↦ if str_eq (c_str host) (c_str h) then some (new_record host ip cname) else none
    ]
unfolding dns_cache_add
dns_cache_find-dns_cache_add h host ip cname d short = elim (option_cases (dns_cache_find host d)) [
  | inl new ↦
      let added : dns_cache_add host ip cname d ≡ record d {
        cache_hash =
            assign d.cache_hash (dns_hash_cache_str host)
              (d.cache_hash (dns_hash_cache_str host) ++ new_record host ip cname ∷ []);
      } =
        ground arith in
      ap (dns_cache_find h) added
      ∙ unfold dns_cache_find in
        (bucket-assign (c_str h) (c_str host) (new_record host ip cname) d.cache_hash
          (new_record-host host ip cname short))
  | inr (r, old) ↦
      let kept : dns_cache_add host ip cname d ≡ d = ground arith in
      ap (dns_cache_find h) kept ∙ elim (Bool-cases (str_eq (c_str host) (c_str h))) [
        | inl same ↦
            let found : dns_cache_find h d ≡ some r =
              dns_cache_find-c_str h host d (sym (str_eq→eq (c_str host) (c_str h) same)) ∙ old in
            ground (arith, found)
        | inr other ↦ ground arith
      ]
]
