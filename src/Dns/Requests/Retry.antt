-- ===== src/Dns/Requests/Retry.antt =====
-- dns.c: a query whose answer does not come.
use h2_client_proxy.Base.{◌+◌, ◌<◌, ◌≡◌, false, leb, some, refl, arith, Bytes}
use h2_client_proxy.Dns.Types.{Dns, RealReq}
use h2_client_proxy.Dns.Requests.{
  dns_real_req_find, dns_real_req_start, dns_real_req_timercb, store,
}
use h2_client_proxy.Dns.Requests.Table.{IsTable}
use h2_client_proxy.Dns.Requests.Preserve.{found-Fits}
use h2_client_proxy.Dns.Requests.Answers.{find-store}

-- The request after a timeout: nothing is scheduled for it.
abbrev pub timed_out : RealReq → RealReq
timed_out r = record r {
  timer = record r.timer { is_scheduled = false };
  count_timeout = r.count_timeout + 1;
}

-- A request of the table times out, and not for the fifth time: no query is sent again, no callback
-- is called, and the timer of the request is not scheduled any more, so that only a late answer can
-- end it.
pub dns_real_req_timercb_stalls :
    (host : Bytes) (r : RealReq) (d : Dns)
    → IsTable d
    → dns_real_req_find host d ≡ some r
    → r.count_timeout < 4
    → (d' : Dns) × (dns_real_req_timercb host d ≡ some d')
      × (d'.sent ≡ d.sent)
      × (d'.replies ≡ d.replies)
      × (dns_real_req_find host d' ≡ some (timed_out r))
unfolding dns_real_req_timercb dns_real_req_start
dns_real_req_timercb_stalls host r d v e few =
    let f = found-Fits host d r v e in
    let early : leb 5 (r.count_timeout + 1) ≡ false = ground arith in
    (
      store (timed_out r) d,
      rw (dns_real_req_timercb, e, early, dns_real_req_start, f.pending) refl,
      refl,
      refl,
      find-store host d r (timed_out r) v e refl,
    )
