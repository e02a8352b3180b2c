-- ===== src/Dns/Cache.antt =====
-- dns.c: the cache of answers.
pub mod Lookup
use h2_client_proxy.Base.{
  Option, none, some, List, [], ◌∷◌, ◌++◌, if◌then◌else◌, take, ltb, length, Bytes, c_str, str_eq,
}
use h2_client_proxy.Ep.Types.{assign}
use h2_client_proxy.Dns.Types.{Dns, CacheRecord, dns_hash_cache_str, host_size}

-- The loop of `dns_cache_find`, for the text of a host.
unfoldable pub find_record : Bytes → List CacheRecord → Option CacheRecord
find_record host [] = none
find_record host (pos ∷ rest) = if str_eq pos.host host then some pos else find_record host rest

unfoldable pub dns_cache_find : Bytes → Dns → Option CacheRecord
unfolding find_record
dns_cache_find host d = find_record (c_str host) (d.cache_hash (dns_hash_cache_str host))

-- A text in an array of 256 bytes that `strncpy` filled: with no 0 byte left it runs into the text
-- behind the array.
unfoldable pub stored : Bytes → Bytes → Bytes
stored text behind = if ltb (length text) host_size then text else take host_size text ++ behind

-- The address stands behind the host. The name is cut at the size of the address, 64.
unfoldable pub new_record : Bytes → Bytes → Bytes → CacheRecord
unfolding stored
new_record host ip cname = record {
  host = stored (c_str host) (take 64 (c_str ip));
  ip = take 64 (c_str ip);
  cname = take 64 (c_str cname);
}

unfoldable pub dns_cache_add : Bytes → Bytes → Bytes → Dns → Dns
unfolding new_record
dns_cache_add host ip cname d = elim (dns_cache_find host d) [
  | some _ ↦ d
  | none ↦
      let i = dns_hash_cache_str host in
      record d {
        cache_hash = assign d.cache_hash i (d.cache_hash i ++ new_record host ip cname ∷ []);
      }
]
