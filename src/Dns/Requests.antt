-- ===== src/Dns/Requests.antt =====
-- dns.c: the requests, `dns_resolve`, the answers, the timers and `dns_cancel`.
pub mod Table
pub mod Preserve
pub mod Resolve
pub mod Reach
pub mod Answers
pub mod Retry
pub mod Faults
use h2_client_proxy.Base.{
  Outcome, ok, crash, stuck, codes, codes, ℕ, zero, suc, ◌+◌, ◌==◌, ◌&&◌, ◌||◌, not, Bool, true,
  false, Option, none, some, List, [], ◌∷◌, ◌++◌, map, leb, if◌then◌else◌, Bytes, c_str, str_eq,
  take,
}
use h2_client_proxy.Base.Int.{ℤ, pos, negsuc}
use h2_client_proxy.Ep.Types.{assign}
use h2_client_proxy.Dns.Types.{
  Dns, RealReq, RetryTimer, RightResult, ntoa_buffer, cached_ip, Reply, dns_hash_str, host_of,
  host_size,
}
use h2_client_proxy.Dns.Message.{ResponseRecord, Response, decode_response, dns_send_req}
use h2_client_proxy.Dns.Cache.{dns_cache_find, dns_cache_add}

-- The loop of `dns_real_req_find`: `strncmp` compares what fits the array.
unfoldable pub find_req : Bytes → List RealReq → Option RealReq
find_req host [] = none
find_req host (p ∷ rest) = if str_eq p.host host then some p else find_req host rest

unfoldable pub dns_real_req_find : Bytes → Dns → Option RealReq
unfolding find_req
dns_real_req_find host d = find_req (host_of host) (d.hash (dns_hash_str host))

unfoldable pub dns_real_req_add : RealReq → Dns → Dns
dns_real_req_add r d =
    let i = dns_hash_str r.host in record d { hash = assign d.hash i (d.hash i ++ r ∷ []) }

-- A write through the pointer to a request, which is known by its host.
unfoldable pub put_req : RealReq → List RealReq → List RealReq
put_req r [] = []
put_req r (p ∷ rest) = if str_eq p.host r.host then r ∷ rest else p ∷ put_req r rest

abbrev pub store : RealReq → Dns → Dns
store r d =
    let i = dns_hash_str r.host in record d { hash = assign d.hash i (put_req r (d.hash i)) }

-- `list_del` of a request.
unfoldable pub remove_req : Bytes → List RealReq → List RealReq
remove_req host [] = []
remove_req host (p ∷ rest) = if str_eq p.host host then rest else p ∷ remove_req host rest

abbrev pub unlink : Bytes → Dns → Dns
unlink host d =
    let i = dns_hash_str host in record d { hash = assign d.hash i (remove_req host (d.hash i)) }

-- `ep_timer_add` sets the flag and schedules the timer.
abbrev pub scheduled : RetryTimer
scheduled = record { pending = true; is_scheduled = true }

abbrev pub unset : RetryTimer
unset = record { pending = false; is_scheduled = false }

-- With the timer pending nothing is done. The timer is stored, and the query sent, for the host
-- that stands in the request.
unfoldable pub dns_real_req_start : RealReq → Dns → Dns
dns_real_req_start r d =
    if r.timer.pending
    then store r d
    else let d' = store (record r { timer = scheduled }) d in
      record d' { sent = d'.sent ++ dns_send_req r.host ∷ [] }

-- The addresses of the records, and the canonical name of the last one that has one, "" if none.
unfoldable pub ips_of : List ResponseRecord → List Bytes
ips_of [] = []
ips_of (r ∷ rest) = if r.type == 1 then r.ip ∷ ips_of rest else ips_of rest

unfoldable pub cname_of : Bytes → List ResponseRecord → Bytes
cname_of cname [] = cname
cname_of cname (r ∷ rest) = cname_of (if r.type == 5 then c_str r.cname else cname) rest

-- `resp_count == 0 & ret_code == 0`
abbrev pub code_of : List ResponseRecord → ℤ → ℤ
code_of [] (pos zero) = negsuc 0
code_of [] (pos (suc n)) = pos (suc n)
code_of [] (negsuc n) = negsuc n
code_of (r ∷ rest) code = code

unfoldable pub is_ok : ℤ → Bool
is_ok (pos zero) = true
is_ok (pos (suc n)) = false
is_ok (negsuc n) = false

-- A call of the callback of each request, in order.
abbrev pub replies_to : List ℕ → ℤ → List Bytes → Bytes → List Reply
replies_to [] code ips cname = []
replies_to (q ∷ rest) code ips cname =
    record { req = q; code = code; ips = ips; cname = cname } ∷ replies_to rest code ips cname

-- The answer goes into the cache if there is one: with no address, `ips[0]` is NULL, which is a
-- crash unless the host is cached.
unfoldable pub cache_answer : Bytes → List Bytes → Bytes → Dns → Option Dns
cache_answer host [] cname d = elim (dns_cache_find host d) [ none ↦ none | some _ ↦ some d ]
cache_answer host (ip ∷ ips) cname d = some (dns_cache_add host ip cname d)

-- The callbacks, and the cache after them.
unfoldable pub reply_all : RealReq → List ResponseRecord → ℤ → Dns → Option Dns
unfolding ips_of cname_of is_ok cache_answer
reply_all r resps ret_code d =
    let code = code_of resps ret_code in
    let ips = ips_of resps in
    let cname = cname_of [] resps in
    let d' = record d { replies = d.replies ++ replies_to r.list_reqs code ips cname } in
    if is_ok code then cache_answer r.host ips cname d' else some d'

unfoldable pub dns_real_req_active_and_free : RealReq → List ResponseRecord → ℤ → Dns → Option Dns
unfolding reply_all
dns_real_req_active_and_free r resps ret_code d = elim (reply_all r resps ret_code d) [
  | none ↦ none
  | some d' ↦ some (unlink r.host d')
]

-- The timer fires: it leaves the list of timers, and its flag `pending` stays. Then the callback,
-- for the request with this host.
unfoldable pub dns_real_req_timercb : Bytes → Dns → Option Dns
dns_real_req_timercb host d = elim (dns_real_req_find host d) [
  | none ↦ none
  | some r ↦
      let fired = record r {
        timer = record r.timer { is_scheduled = false };
        count_timeout = r.count_timeout + 1;
      } in
      if leb 5 fired.count_timeout
      then dns_real_req_active_and_free fired [] (negsuc 0) d
      else some (dns_real_req_start fired d)
]

-- A message of the server, decoded: the request of its host is answered.
unfoldable pub answer : Option Response → Dns → Option Dns
answer none d = some d
answer (some m) d = elim (dns_real_req_find m.host d) [
  | none ↦ some d
  | some r ↦ dns_real_req_active_and_free r m.resps (pos m.rcode) d
]

-- Of a message that is not decoded within its bounds nothing is known.
unfoldable pub on_message : Outcome (Option Response) → Dns → Option Dns
on_message (ok m) d = answer m d
on_message crash d = none
on_message stuck d = none

-- Nothing is done for another event than EP_READ, 1, and if `recvfrom` fails.
unfoldable pub dns_recv_cb : ℕ → ℕ → Option Bytes → Dns → Option Dns
unfolding on_message
dns_recv_cb fuel what none d = some d
dns_recv_cb fuel what (some msg) d =
    if what == 1 then on_message (decode_response fuel msg) d else some d

-- The text that `right_result` shows.
abbrev right_text : RightResult → Dns → Bytes
right_text ntoa_buffer d = d.buffer
right_text (cached_ip ip) d = ip

-- The timer of the first request whose answer is at hand.
unfoldable pub dns_rightnow_tmrcb : Dns → Dns
dns_rightnow_tmrcb d = elim d.right [
  | [] ↦ d
  | (q, result) ∷ rest ↦ record d {
    right = rest;
    replies =
        d.replies
        ++ record {
          req = q;
          code = pos 0;
          ips = right_text result d ∷ [];
          cname = codes "fake.cname";
        }
          ∷ [];
  }
]

-- `dns_cancel`, on a request with this number. The link of a request whose answer is at hand was
-- never set: `list_del` reads through NULL. The pointer `real_req` is never set, so the request to
-- the server stays.
unfoldable pub drop_id : ℕ → List ℕ → List ℕ
drop_id q [] = []
drop_id q (x ∷ rest) = if x == q then rest else x ∷ drop_id q rest

unfoldable pub drop_from : ℕ → List RealReq → List RealReq
unfolding drop_id
drop_from q [] = []
drop_from q (r ∷ rest) = record r { list_reqs = drop_id q r.list_reqs } ∷ drop_from q rest

unfoldable pub is_right : ℕ → List (ℕ × RightResult) → Bool
is_right q [] = false
is_right q (x ∷ rest) = x.0 == q || is_right q rest

unfoldable pub dns_cancel : ℕ → Dns → Option Dns
unfolding is_right drop_from
dns_cancel q d =
    if is_right q d.right then none else some (record d { hash = λ i. drop_from q (d.hash i) })

-- `inet_aton` and `inet_ntoa` of the library: the text that they make of a literal address.
module _ (inet_text : Bytes → Option Bytes) where
  -- The new request has the number `q`.
  unfoldable pub dns_resolve : ℕ → Bytes → Dns → Dns
  dns_resolve q host d = elim (inet_text host) [
    | some text ↦ record d { buffer = text; right = d.right ++ (q, ntoa_buffer) ∷ [] }
    | none ↦ elim (dns_cache_find host d) [
      | some r ↦ record d { right = d.right ++ (q, cached_ip r.ip) ∷ [] }
      | none ↦ elim (dns_real_req_find host d) [
        | some r ↦ store (record r { list_reqs = r.list_reqs ++ q ∷ [] }) d
        | none ↦
            let r : RealReq = record {
              host = host_of host;
              list_reqs = [];
              timer = unset;
              count_timeout = 0;
            } in
            let d' = dns_real_req_start r (dns_real_req_add r d) in
            store (record r { timer = scheduled; list_reqs = q ∷ [] }) d'
      ]
    ]
  ]
