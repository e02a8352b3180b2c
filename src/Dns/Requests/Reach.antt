-- ===== src/Dns/Requests/Reach.antt =====
-- dns.c: what happens to the resolver, as steps, and what every state that it reaches keeps.
use h2_client_proxy.Base.{
  Bool, true, false, none, ◌==◌, if◌then◌else◌, Outcome, ok, crash, stuck, ℕ, ◌≡◌, ◌<◌, Option,
  some, Bytes, c_str, length, arith,
}
use h2_client_proxy.Dns.Types.{Dns, dns_init, host_size}
use h2_client_proxy.Dns.Message.{Response, decode_response}
use h2_client_proxy.Dns.Requests.{
  on_message, dns_real_req_timercb, dns_recv_cb, dns_rightnow_tmrcb, dns_cancel, dns_resolve,
}
use h2_client_proxy.Dns.Requests.Table.{IsTable}
use h2_client_proxy.Dns.Requests.Preserve.{
  same_hash-IsTable, timercb-IsTable, answer-IsTable, cancel-IsTable,
}
use h2_client_proxy.Dns.Requests.Resolve.{resolve-IsTable}

-- Something happens: a request for a host that fits its array with the 0 byte behind it, a message of the server, a timer, or
-- the end of a request. None of them is a crash.
pub data Step (inet_text : Bytes → Option Bytes) (d d' : Dns) : Type 0 where
  resolves :
      (q : ℕ) (host : Bytes)
      → length (c_str host) < host_size
      → d' ≡ dns_resolve inet_text q host d
      → Step inet_text d d'
  receives :
      (fuel what : ℕ) (received : Option Bytes)
      → dns_recv_cb fuel what received d ≡ some d'
      → Step inet_text d d'
  times_out : (host : Bytes) → dns_real_req_timercb host d ≡ some d' → Step inet_text d d'
  is_right : d' ≡ dns_rightnow_tmrcb d → Step inet_text d d'
  cancels : (q : ℕ) → dns_cancel q d ≡ some d' → Step inet_text d d'

-- A state that the resolver reaches.
pub data Reach (inet_text : Bytes → Option Bytes) : Dns → Type 0 where
  start : Reach inet_text dns_init
  next : {d d' : Dns} → Reach inet_text d → Step inet_text d d' → Reach inet_text d'

message-IsTable :
    (m : Outcome (Option Response)) (d d' : Dns) → IsTable d → on_message m d ≡ some d' → IsTable d'
unfolding on_message
message-IsTable (ok m) d d' v e = answer-IsTable m d d' v e
message-IsTable crash d d' v e = cc
message-IsTable stuck d d' v e = cc

unchanged-IsTable : (d d' : Dns) → IsTable d → some d ≡ some d' → IsTable d'
unchanged-IsTable d d' v e = same_hash-IsTable d d' (ground arith) v

guarded-IsTable :
    (is_read : Bool) (m : Outcome (Option Response)) (d d' : Dns)
    → IsTable d
    → (if is_read then on_message m d else some d) ≡ some d'
    → IsTable d'
guarded-IsTable true m d d' v e = message-IsTable m d d' v e
guarded-IsTable false m d d' v e = unchanged-IsTable d d' v e

recv-IsTable :
    (fuel what : ℕ) (received : Option Bytes) (d d' : Dns)
    → IsTable d
    → dns_recv_cb fuel what received d ≡ some d'
    → IsTable d'
unfolding dns_recv_cb
recv-IsTable fuel what none d d' v e = unchanged-IsTable d d' v e
recv-IsTable fuel what (some msg) d d' v e =
    guarded-IsTable (what == 1) (decode_response fuel msg) d d' v e

rightnow-IsTable : (d : Dns) → IsTable d → IsTable (dns_rightnow_tmrcb d)
unfolding dns_rightnow_tmrcb
rightnow-IsTable d v = same_hash-IsTable d (dns_rightnow_tmrcb d) (ground arith) v

Step-IsTable :
    (inet_text : Bytes → Option Bytes) (d d' : Dns) → Step inet_text d d' → IsTable d → IsTable d'
Step-IsTable inet_text d d' (resolves q host short e) v =
    rw e (resolve-IsTable inet_text q host d short v)
Step-IsTable inet_text d d' (receives fuel what received e) v =
    recv-IsTable fuel what received d d' v e
Step-IsTable inet_text d d' (times_out host e) v = timercb-IsTable host d d' v e
Step-IsTable inet_text d d' (is_right e) v = rw e (rightnow-IsTable d v)
Step-IsTable inet_text d d' (cancels q e) v = cancel-IsTable q d d' v e

-- In every state that the resolver reaches by requests for hosts of less than 256 bytes, by messages
-- of the server, timers and ends of requests, none of them a crash, a bucket holds only requests for hosts of this bucket,
-- no two for the same host, and their timers are pending.
pub Reach-IsTable : (inet_text : Bytes → Option Bytes) (d : Dns) → Reach inet_text d → IsTable d
unfolding dns_init
Reach-IsTable inet_text _ start = record { unique = λ i. tt }
Reach-IsTable inet_text d (next {d = c} r s) =
    Step-IsTable inet_text c d s (Reach-IsTable inet_text c r)
