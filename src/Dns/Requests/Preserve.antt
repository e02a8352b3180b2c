-- ===== src/Dns/Requests/Preserve.antt =====
-- dns.c: what the answers, the timers and `dns_cancel` leave of the table.
use h2_client_proxy.Base.{
  leb, ◌+◌, ℕ, ◌≡◌, false, Option, none, some, List, [], ◌∷◌, ◌++◌, refl, ap, ◌∙◌, sym, arith,
  Bytes, option_cases, Bool-cases, inl, inr,
}
use h2_client_proxy.Base.Int.{ℤ, pos, negsuc}
use h2_client_proxy.Ep.Types.{assign}
use h2_client_proxy.Dns.Types.{Dns, RealReq, dns_hash_str, host_of}
use h2_client_proxy.Dns.Cache.{dns_cache_add}
use h2_client_proxy.Dns.Message.{ResponseRecord, Response}
use h2_client_proxy.Dns.Requests.{
  code_of, is_ok, ips_of, cname_of, replies_to, reply_all, find_req, put_req, remove_req,
  dns_real_req_find, store, unlink, dns_real_req_start, dns_real_req_active_and_free, cache_answer,
  dns_real_req_timercb, answer, dns_cancel, drop_from,
}
use h2_client_proxy.Dns.Requests.Table.{
  Fits, Unique, IsTable, Unique-put, Unique-remove, find_req-Fits, assign-IsTable,
}

pub store-IsTable :
    (r : RealReq) (d : Dns) → IsTable d → Fits (dns_hash_str r.host) r → IsTable (store r d)
store-IsTable r d v f =
    let i = dns_hash_str r.host in
    assign-IsTable d (assign d.hash i (put_req r (d.hash i))) i (put_req r (d.hash i)) v (λ j. refl)
      (Unique-put i (d.hash i) r (v.unique i) f)

unlink-IsTable : (host : Bytes) (d : Dns) → IsTable d → IsTable (unlink host d)
unlink-IsTable host d v =
    let i = dns_hash_str host in
    assign-IsTable d (assign d.hash i (remove_req host (d.hash i))) i (remove_req host (d.hash i)) v
      (λ j. refl) (Unique-remove i host (d.hash i) (v.unique i))

-- The table is all that matters.
pub same_hash-IsTable : (d d' : Dns) → d'.hash ≡ d.hash → IsTable d → IsTable d'
same_hash-IsTable d d' e v = record { unique = λ i. rw e (v.unique i) }

pub dns_cache_add-hash :
    (host ip cname : Bytes) (d : Dns) → (dns_cache_add host ip cname d).hash ≡ d.hash
unfolding dns_cache_add
dns_cache_add-hash host ip cname d = ground arith

cache_answer-hash :
    (host : Bytes) (ips : List Bytes) (cname : Bytes) (d d' : Dns)
    → cache_answer host ips cname d ≡ some d'
    → d'.hash ≡ d.hash
unfolding cache_answer
cache_answer-hash host [] cname d d' e = ground arith
cache_answer-hash host (ip ∷ ips) cname d d' e = ground (arith, dns_cache_add-hash host ip cname d)

reply_all-hash :
    (r : RealReq) (resps : List ResponseRecord) (code : ℤ) (d d' : Dns)
    → reply_all r resps code d ≡ some d'
    → d'.hash ≡ d.hash
unfolding reply_all
reply_all-hash r resps code d d' e = elim (Bool-cases (is_ok (code_of resps code))) [
  | inl fine ↦
      let ips = ips_of resps in
      let cname = cname_of [] resps in
      let d1 = record d {
        replies = d.replies ++ replies_to r.list_reqs (code_of resps code) ips cname;
      } in
      let cached : cache_answer r.host ips cname d1 ≡ some d' = ground arith in
      cache_answer-hash r.host ips cname d1 d' cached
  | inr bad ↦ ground arith
]

-- After an answer the request is out of the table.
active_and_free-hash :
    (r : RealReq) (resps : List ResponseRecord) (code : ℤ) (d d' : Dns)
    → dns_real_req_active_and_free r resps code d ≡ some d'
    → d'.hash ≡ (unlink r.host d).hash
unfolding dns_real_req_active_and_free
active_and_free-hash r resps code d d' e = elim (option_cases (reply_all r resps code d)) [
  | inl n ↦ ground arith
  | inr (d1, s) ↦
      let it : unlink r.host d1 ≡ d' = ground arith in
      let h = reply_all-hash r resps code d d1 s in
      ap (λ x. x.hash) (sym it)
      ∙ ap (λ t. assign t (dns_hash_str r.host) (remove_req r.host (t (dns_hash_str r.host)))) h
]

active_and_free-IsTable :
    (r : RealReq) (resps : List ResponseRecord) (code : ℤ) (d d' : Dns)
    → IsTable d
    → dns_real_req_active_and_free r resps code d ≡ some d'
    → IsTable d'
active_and_free-IsTable r resps code d d' v e =
    same_hash-IsTable (unlink r.host d) d' (active_and_free-hash r resps code d d' e)
      (unlink-IsTable r.host d v)

-- A request that is found stands in its bucket, with a host that fits.
pub found-Fits :
    (host : Bytes) (d : Dns) (r : RealReq)
    → IsTable d
    → dns_real_req_find host d ≡ some r
    → Fits (dns_hash_str r.host) r
unfolding dns_real_req_find
found-Fits host d r v e =
    let f =
      find_req-Fits (host_of host) (dns_hash_str host) (d.hash (dns_hash_str host)) r
        (v.unique (dns_hash_str host)) e in
    record { cut = f.cut; bucket = refl; pending = f.pending }

start-IsTable :
    (r : RealReq) (d : Dns)
    → IsTable d
    → Fits (dns_hash_str r.host) r
    → IsTable (dns_real_req_start r d)
unfolding dns_real_req_start
start-IsTable r d v f =
    let s : dns_real_req_start r d ≡ store r d = ground (arith, f.pending) in
    rw s (store-IsTable r d v f)

pub timercb-IsTable :
    (host : Bytes) (d d' : Dns) → IsTable d → dns_real_req_timercb host d ≡ some d' → IsTable d'
unfolding dns_real_req_timercb
timercb-IsTable host d d' v e = elim (option_cases (dns_real_req_find host d)) [
  | inl n ↦ ground (arith, n)
  | inr (r, s) ↦
      let fired : RealReq = record r {
        timer = record r.timer { is_scheduled = false };
        count_timeout = r.count_timeout + 1;
      } in
      let f = found-Fits host d r v s in
      let f' : Fits (dns_hash_str r.host) fired = record {
        cut = f.cut;
        bucket = f.bucket;
        pending = f.pending;
      } in
      elim (Bool-cases (leb 5 fired.count_timeout)) [
        | inl late ↦ active_and_free-IsTable fired [] (negsuc 0) d d' v (ground arith)
        | inr early ↦
            let it : dns_real_req_start fired d ≡ d' = ground arith in
            rw (sym it) (start-IsTable fired d v f')
      ]
]

pub answer-IsTable :
    (m : Option Response) (d d' : Dns) → IsTable d → answer m d ≡ some d' → IsTable d'
unfolding answer
answer-IsTable none d d' v e = let it : d ≡ d' = ground arith in rw (sym it) v
answer-IsTable (some m) d d' v e = elim (option_cases (dns_real_req_find m.host d)) [
  | inl n ↦ let it : d ≡ d' = ground arith in rw (sym it) v
  | inr (r, s) ↦ active_and_free-IsTable r m.resps (pos m.rcode) d d' v (ground arith)
]

drop_from-find :
    (q : ℕ) (k : Bytes) (rs : List RealReq)
    → find_req k rs ≡ none
    → find_req k (drop_from q rs) ≡ none
unfolding drop_from find_req
drop_from-find q k [] e = refl
drop_from-find q k (r ∷ rs) e = ground (arith, drop_from-find q k rs)

drop_from-Unique : (q i : ℕ) (rs : List RealReq) → Unique i rs → Unique i (drop_from q rs)
unfolding drop_from
drop_from-Unique q i [] u = tt
drop_from-Unique q i (r ∷ rs) u = (
  record { cut = u.0.cut; bucket = u.0.bucket; pending = u.0.pending },
  drop_from-find q r.host rs u.1,
  drop_from-Unique q i rs u.2,
)

pub cancel-IsTable : (q : ℕ) (d d' : Dns) → IsTable d → dns_cancel q d ≡ some d' → IsTable d'
unfolding dns_cancel
cancel-IsTable q d d' v e =
    let it : record d { hash = λ i. drop_from q (d.hash i) } ≡ d' = ground arith in
    rw (sym it) (record { unique = λ i. drop_from-Unique q i (d.hash i) (v.unique i) })
