-- ===== src/Dns/Types.antt =====
-- dns.c: the state of the resolver. The callbacks of its users are recorded, with what they are
-- called with, and make no call of the resolver of their own.
use h2_client_proxy.Base.{
  ℕ, ◌+◌, ◌-◌, ◌%◌, ◌^◌, Bool, List, [], ◌∷◌, ltb, if◌then◌else◌, take, Bytes, c_str,
}
use h2_client_proxy.Base.Int.{ℤ}

-- `struct cache_record`
pub record CacheRecord : Type 0 where
  pub cname : Bytes
  pub host : Bytes
  pub ip : Bytes

-- A timer of a request: `pending` is the flag of `struct ep_timer`, which `ep_timer_pending`
-- returns, and `is_scheduled` whether its info stands in the list of timers.
pub record RetryTimer : Type 0 where
  pub pending : Bool
  pub is_scheduled : Bool

-- `struct dns_real_req`; a `struct dns_req` is known by a number. The timer is made with the
-- request.
pub record RealReq : Type 0 where
  pub host : Bytes
  pub list_reqs : List ℕ
  pub timer : RetryTimer
  pub count_timeout : ℕ

-- What `right_result` points to: the static buffer of `inet_ntoa`, or the address in a record of
-- the cache, which is never changed.
pub data RightResult : Type 0 where
  ntoa_buffer : RightResult
  cached_ip : Bytes → RightResult

-- A call of a user's callback: the request, the code, the addresses and the canonical name.
pub record Reply : Type 0 where
  pub req : ℕ
  pub code : ℤ
  pub ips : List Bytes
  pub cname : Bytes

-- The buckets of `s_hash` and `s_cache_hash`, the requests whose answer is at hand with what they
-- point to, the buffer of `inet_ntoa`, the packets sent, and the calls of callbacks.
pub record Dns : Type 0 where
  pub hash : ℕ → List RealReq
  pub cache_hash : ℕ → List CacheRecord
  pub right : List (ℕ × RightResult)
  pub buffer : Bytes
  pub sent : List Bytes
  pub replies : List Reply

-- After `dns_init`.
unfoldable pub dns_init : Dns
dns_init = record {
  hash = λ _. [];
  cache_hash = λ _. [];
  right = [];
  buffer = [];
  sent = [];
  replies = [];
}

-- The sum of the characters, which are signed, in 64 bits.
char_sum : Bytes → ℕ
char_sum [] = 0
char_sum (c ∷ cs) = (if ltb c 128 then c else 2 ^ 64 + c - 256) + char_sum cs

-- The bucket of a text, of so many.
unfoldable pub bucket_of : ℕ → Bytes → ℕ
unfolding char_sum
bucket_of size text = char_sum text % 2 ^ 64 % size

abbrev pub dns_hash_str : Bytes → ℕ
dns_hash_str str = bucket_of 512 (c_str str)

abbrev pub dns_hash_cache_str : Bytes → ℕ
dns_hash_cache_str str = bucket_of 4096 (c_str str)

-- The size of `host` in the records.
abbrev pub host_size : ℕ
host_size = 256

-- What `strncpy` puts into `host`; a host of this size has no 0 byte behind it there.
abbrev pub host_of : Bytes → Bytes
host_of host = take host_size (c_str host)
