-- ===== src/Dns/Requests/Faults.antt =====
-- dns.c: literal and cached addresses, and answers without one.
use h2_client_proxy.Base.{
  ℕ, ◌≡◌, ◌≢◌, ◌⊎◌, true, Option, none, some, List, [], ◌∷◌, ◌++◌, refl, ap, ◌∙◌, arith, Bytes,
  codes, option_cases, inl, inr,
}
use h2_client_proxy.Base.Int.{pos}
use h2_client_proxy.Dns.Types.{
  Dns, RealReq, Reply, RightResult, ntoa_buffer, cached_ip, CacheRecord,
}
use h2_client_proxy.Dns.Cache.{dns_cache_find}
use h2_client_proxy.Dns.Message.{ResponseRecord}
use h2_client_proxy.Dns.Requests.{
  dns_resolve, dns_rightnow_tmrcb, dns_cancel, is_right, reply_all, dns_real_req_active_and_free,
  ips_of, is_ok, cache_answer,
}

-- A reply with an address that was at hand.
abbrev pub right_reply : ℕ → Bytes → Reply
right_reply q ip = record { req = q; code = pos 0; ips = ip ∷ []; cname = codes "fake.cname" }

is_right_last :
    (q : ℕ) (rs : List (ℕ × RightResult)) (x : RightResult) → is_right q (rs ++ (q, x) ∷ []) ≡ true
unfolding is_right
is_right_last q [] x = ground arith
is_right_last q (r ∷ rs) x = ground (arith, is_right_last q rs x)

cancel_at_hand :
    (q : ℕ) (d d' : Dns) (x : RightResult)
    → d'.right ≡ d.right ++ (q, x) ∷ []
    → dns_cancel q d' ≡ none
unfolding dns_cancel
cancel_at_hand q d d' x e =
    let here : is_right q d'.right ≡ true = ap (is_right q) e ∙ is_right_last q d.right x in
    ground arith

-- A response of code 0 that has records and none with an address, for a host that is not cached, is
-- a crash.
pub no_address_crashes :
    (r : RealReq) (resps : List ResponseRecord) (d : Dns)
    → resps ≢ []
    → ips_of resps ≡ []
    → dns_cache_find r.host d ≡ none
    → dns_real_req_active_and_free r resps (pos 0) d ≡ none
unfolding dns_real_req_active_and_free reply_all is_ok cache_answer dns_cache_find
no_address_crashes r [] d some_record e n = absurd (some_record refl)
no_address_crashes r (x ∷ rest) d some_record e n =
    rw (dns_real_req_active_and_free, reply_all, cache_answer, e, n) refl

module _ (inet_text : Bytes → Option Bytes) where
  -- Two literal addresses are resolved before their timers fire: both callbacks get the second one.
  pub literal_overwritten :
      (q q' : ℕ) (a b x y : Bytes) (d : Dns)
      → d.right ≡ []
      → inet_text a ≡ some x
      → inet_text b ≡ some y
      → (dns_rightnow_tmrcb
          (dns_rightnow_tmrcb (dns_resolve inet_text q' b (dns_resolve inet_text q a d)))).replies
        ≡ (d.replies ++ right_reply q y ∷ []) ++ right_reply q' y ∷ []
  unfolding dns_resolve dns_rightnow_tmrcb
  literal_overwritten q q' a b x y d e ea eb = ground arith

  -- A request for a literal address or for a host that is cached, cancelled before its timer fires,
  -- is a crash.
  pub cancel_crashes :
      (q : ℕ) (host : Bytes) (d : Dns)
      → ((x : Bytes) × (inet_text host ≡ some x))
        ⊎ ((r : CacheRecord) × (dns_cache_find host d ≡ some r))
      → dns_cancel q (dns_resolve inet_text q host d) ≡ none
  unfolding dns_resolve
  cancel_crashes q host d (inl (x, literal)) =
      cancel_at_hand q d (dns_resolve inet_text q host d) ntoa_buffer (ground arith)
  cancel_crashes q host d (inr (r, cached)) = elim (option_cases (inet_text host)) [
    | inl n ↦ cancel_at_hand q d (dns_resolve inet_text q host d) (cached_ip r.ip) (ground arith)
    | inr (x, l) ↦ cancel_at_hand q d (dns_resolve inet_text q host d) ntoa_buffer (ground arith)
  ]
