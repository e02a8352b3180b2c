-- ===== src/Dns/Requests/Answers.antt =====
-- dns.c: requests for one host share one query, and its answer goes to each of them once.
use h2_client_proxy.Base.{
  ok, ℕ, ◌≡◌, ◌<◌, true, Option, none, some, List, [], ◌∷◌, ◌++◌, refl, ap, ◌∙◌, sym, arith, Bytes,
  c_str, length, str_eq_refl, str_eq, take,
}
use h2_client_proxy.Base.Int.{pos}
use h2_client_proxy.Ep.Types.{assign}
use h2_client_proxy.Dns.Types.{
  dns_hash_cache_str, Dns, RealReq, dns_hash_str, host_of, host_size, bucket_of,
}
use h2_client_proxy.Dns.Cache.{find_record, dns_cache_find, dns_cache_add, new_record}
use h2_client_proxy.Dns.Cache.Lookup.{dns_cache_find-dns_cache_add}
use h2_client_proxy.Dns.Message.{ResponseRecord, Response, decode_response, dns_send_req}
use h2_client_proxy.Dns.Requests.{
  remove_req, find_req, store, unlink, dns_real_req_find, dns_resolve, dns_recv_cb, on_message,
  answer, reply_all, dns_real_req_active_and_free, ips_of, cname_of, replies_to, is_ok,
  cache_answer,
}
use h2_client_proxy.Dns.Requests.Table.{
  IsTable, find_req-snoc, find_req-put, find_req-remove, find_req-host, find_req-Fits,
}
use h2_client_proxy.Dns.Requests.Preserve.{same_hash-IsTable, dns_cache_add-hash}
use h2_client_proxy.Dns.Requests.Resolve.{
  c_str-host_of, host_of_text, new_req, same_bucket, resolve_new, resolve-IsTable,
}

assign_at : (f : ℕ → List RealReq) (i : ℕ) (rs : List RealReq) → assign f i rs i ≡ rs
assign_at f i rs = ground arith

snoc_found :
    (k : Bytes) (rs : List RealReq) (r : RealReq)
    → find_req k rs ≡ none
    → r.host ≡ k
    → find_req k (rs ++ r ∷ []) ≡ some r
snoc_found k rs r e h =
    let hit : str_eq r.host k ≡ true = ap (λ x. str_eq x k) h ∙ str_eq_refl k in
    ground (arith, find_req-snoc k rs r)

-- Only the text of a host, the table and the cache matter.
find-c_str :
    (a b : Bytes) (d : Dns) → c_str a ≡ c_str b → dns_real_req_find a d ≡ dns_real_req_find b d
unfolding dns_real_req_find
find-c_str a b d e = ap (λ t. find_req (take host_size t) (d.hash (bucket_of 512 t))) e

same_table :
    (h : Bytes) (d d' : Dns) → d'.hash ≡ d.hash → dns_real_req_find h d' ≡ dns_real_req_find h d
unfolding dns_real_req_find
same_table h d d' e = ap (λ t. find_req (host_of h) (t (dns_hash_str h))) e

same_cache :
    (h : Bytes) (d d' : Dns)
    → d'.cache_hash ≡ d.cache_hash
    → dns_cache_find h d' ≡ dns_cache_find h d
unfolding dns_cache_find
same_cache h d d' e = ap (λ t. find_record (c_str h) (t (dns_hash_cache_str h))) e

dns_cache_add-replies :
    (host ip cname : Bytes) (d : Dns) → (dns_cache_add host ip cname d).replies ≡ d.replies
unfolding dns_cache_add
dns_cache_add-replies host ip cname d = ground arith

-- A request that was written over is found as it was written.
pub find-store :
    (host : Bytes) (d : Dns) (r r' : RealReq)
    → IsTable d
    → dns_real_req_find host d ≡ some r
    → r'.host ≡ r.host
    → dns_real_req_find host (store r' d) ≡ some r'
unfolding dns_real_req_find
find-store host d r r' v e h =
    let i = dns_hash_str host in
    let key : r'.host ≡ host_of host = h ∙ find_req-host (host_of host) (d.hash i) r e in
    let bucket : dns_hash_str r'.host ≡ i =
      ap dns_hash_str h ∙ (find_req-Fits (host_of host) i (d.hash i) r (v.unique i) e).bucket in
    let at : d.hash (dns_hash_str r'.host) ≡ d.hash i = ap d.hash bucket in
    ground (
      arith,
      find_req-put (host_of host) (d.hash i) r',
      ap (λ k. str_eq k (host_of host)) key,
      str_eq_refl (host_of host),
    )

-- A request that was taken out is not found.
find-unlink :
    (host : Bytes) (d : Dns) (r : RealReq)
    → IsTable d
    → dns_real_req_find host d ≡ some r
    → dns_real_req_find host (unlink r.host d) ≡ none
unfolding dns_real_req_find
find-unlink host d r v e =
    let i = dns_hash_str host in
    let key : r.host ≡ host_of host = find_req-host (host_of host) (d.hash i) r e in
    let bucket : dns_hash_str r.host ≡ i =
      (find_req-Fits (host_of host) i (d.hash i) r (v.unique i) e).bucket in
    let at : d.hash (dns_hash_str r.host) ≡ d.hash i = ap d.hash bucket in
    ground (
      arith,
      ap (remove_req r.host) at,
      find_req-remove (host_of host) r.host i (d.hash i) (v.unique i),
      ap (λ k. str_eq k (host_of host)) key,
      str_eq_refl (host_of host),
    )

-- An answer of code 0 with an address.
answered :
    (r : RealReq) (resps : List ResponseRecord) (ip : Bytes) (ips : List Bytes) (d : Dns)
    → ips_of resps ≡ ip ∷ ips
    → dns_real_req_active_and_free r resps (pos 0) d
      ≡ some (
          unlink r.host (
            dns_cache_add r.host ip (cname_of [] resps) (record d {
              replies = d.replies ++ replies_to r.list_reqs (pos 0) (ip ∷ ips) (cname_of [] resps);
            })))
unfolding dns_real_req_active_and_free reply_all is_ok cache_answer
answered r [] ip ips d e = cc
answered r (x ∷ rest) ip ips d e = rw (dns_real_req_active_and_free, reply_all, e) refl

module _ (inet_text : Bytes → Option Bytes) where
  resolve_joins :
      (q : ℕ) (host : Bytes) (d : Dns) (r : RealReq)
      → inet_text host ≡ none
      → dns_cache_find host d ≡ none
      → dns_real_req_find host d ≡ some r
      → dns_resolve inet_text q host d ≡ store (record r { list_reqs = r.list_reqs ++ q ∷ [] }) d
  unfolding dns_resolve
  resolve_joins q host d r lit cached known = rw (dns_resolve, lit, cached, known) refl

  found_new :
      (q : ℕ) (host : Bytes) (d : Dns)
      → inet_text host ≡ none
      → dns_cache_find host d ≡ none
      → dns_real_req_find host d ≡ none
      → length (c_str host) < host_size
      → dns_real_req_find host (dns_resolve inet_text q host d) ≡ some (new_req host q)
  unfolding dns_real_req_find
  found_new q host d lit cached known short =
      let i = dns_hash_str (host_of host) in
      let n = resolve_new inet_text q host d lit cached known short in
      let bucket = same_bucket host short in
      ap (find_req (host_of host)) (ap (dns_resolve inet_text q host d).hash (sym bucket) ∙ n.3 i)
      ∙ (ap (find_req (host_of host)) (assign_at d.hash i (d.hash i ++ new_req host q ∷ []))
          ∙ snoc_found (host_of host) (d.hash i) (new_req host q)
              (ap (λ k. find_req (host_of host) (d.hash k)) bucket ∙ known) refl)

  -- A host that fits its array, with the 0 byte behind it, has to be asked for, by two requests before the server answers with
  -- an address for it: one query is sent; then the callbacks of both are called, in order and once,
  -- with the same addresses; the request is out of the table, and the host is in the cache.
  pub shared_answer :
      (q q' fuel : ℕ) (host msg ip : Bytes) (ips : List Bytes) (m : Response) (d : Dns)
      → IsTable d
      → inet_text host ≡ none
      → dns_cache_find host d ≡ none
      → dns_real_req_find host d ≡ none
      → length (c_str host) < host_size
      → decode_response fuel msg ≡ ok (some m)
      → c_str m.host ≡ c_str host
      → m.rcode ≡ 0
      → ips_of m.resps ≡ ip ∷ ips
      → let d2 = dns_resolve inet_text q' host (dns_resolve inet_text q host d) in
        let cname = cname_of [] m.resps in
        (d2.sent ≡ d.sent ++ dns_send_req (host_of host) ∷ [])
        × ((d3 : Dns) × (dns_recv_cb fuel 1 (some msg) d2 ≡ some d3)
            × (d3.replies
                ≡ d.replies
                  ++ record { req = q; code = pos 0; ips = ip ∷ ips; cname = cname }
                    ∷ record { req = q'; code = pos 0; ips = ip ∷ ips; cname = cname }
                    ∷ [])
            × (dns_real_req_find host d3 ≡ none)
            × (dns_cache_find host d3 ≡ some (new_record (host_of host) ip cname)))
  unfolding dns_recv_cb on_message answer
  shared_answer q q' fuel host msg ip ips m d v lit cached known short dec same fine addr =
      let d1 = dns_resolve inet_text q host d in
      let n = resolve_new inet_text q host d lit cached known short in
      let r1 = new_req host q in
      let known1 = found_new q host d lit cached known short in
      let v1 = resolve-IsTable inet_text q host d short v in
      let cached1 : dns_cache_find host d1 ≡ none = same_cache host d d1 n.2 ∙ cached in
      let r2 : RealReq = record r1 { list_reqs = q ∷ q' ∷ [] } in
      let join : dns_resolve inet_text q' host d1 ≡ store r2 d1 =
        resolve_joins q' host d1 r1 lit cached1 known1 in
      let v2 : IsTable (store r2 d1) = rw⁻¹ join (resolve-IsTable inet_text q' host d1 short v1) in
      let known2 : dns_real_req_find host (store r2 d1) ≡ some r2 =
        find-store host d1 r1 r2 v1 known1 refl in
      let d2 = store r2 d1 in
      let cname = cname_of [] m.resps in
      let knownm : dns_real_req_find m.host d2 ≡ some r2 =
        find-c_str m.host host d2 same ∙ known2 in
      let told = record d2 {
        replies = d2.replies ++ replies_to (q ∷ q' ∷ []) (pos 0) (ip ∷ ips) cname;
      } in
      let dc = dns_cache_add (host_of host) ip cname told in
      let table : dc.hash ≡ d2.hash = dns_cache_add-hash (host_of host) ip cname told in
      let text = c_str-host_of host short ∙ host_of_text host short in
      let missing : dns_cache_find host told ≡ none = same_cache host d told n.2 ∙ cached in
      let hit : str_eq (c_str (host_of host)) (c_str host) ≡ true =
        ap (λ k. str_eq k (c_str host)) text ∙ str_eq_refl (c_str host) in
      (
        ap (λ x. x.sent) join ∙ n.0,
        (
          unlink (host_of host) dc,
          rw (join, dns_recv_cb, on_message, dec, answer, knownm, fine)
              (answered r2 m.resps ip ips d2 addr),
          dns_cache_add-replies (host_of host) ip cname told
              ∙ ap (λ x. x ++ replies_to (q ∷ q' ∷ []) (pos 0) (ip ∷ ips) cname) n.1,
          find-unlink host dc r2 (same_hash-IsTable d2 dc table v2)
              (same_table host d2 dc table ∙ known2),
          same_cache host dc (unlink (host_of host) dc) refl
              ∙ (dns_cache_find-dns_cache_add host (host_of host) ip cname told
                    (omega (arith, ap length text, short))
                  ∙ rw (missing, hit) refl),
        ),
      )
