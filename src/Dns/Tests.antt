-- ===== src/Dns/Tests.antt =====
-- Runs of the resolver on one host.
use h2_client_proxy.Base.{
  ok, stuck, ◌≡◌, refl, [], ◌∷◌, ◌++◌, Option, some, none, arith, Bytes, codes, c_str, str_eq, inl,
}
use h2_client_proxy.Base.Int.{pos}
use h2_client_proxy.Dns.Types.{Dns, RealReq, dns_init, host_of, bucket_of}
use h2_client_proxy.Dns.Name.{decode_enc_str, install_domain_name}
use h2_client_proxy.Dns.Name.Array.{zeros, filled}
use h2_client_proxy.Dns.Name.Encode.{IsLabel}
use h2_client_proxy.Dns.Name.Decode.{
  name_size, decode_enc_str-install_domain_name, decode_enc_str_loops,
}
use h2_client_proxy.Dns.Message.{
  decimal, ResponseRecord, Response, ip_text, dns_send_req, decode_response, question_end,
}
use h2_client_proxy.Dns.Message.Answer.{reply_header, address_item, decode_response-address}
use h2_client_proxy.Dns.Cache.{dns_cache_find, dns_cache_add, new_record}
use h2_client_proxy.Dns.Cache.Lookup.{dns_cache_find-dns_cache_add}
use h2_client_proxy.Dns.Requests.{
  put_req, ips_of, dns_real_req_add, dns_real_req_start, dns_resolve, dns_real_req_find,
  dns_real_req_timercb, dns_rightnow_tmrcb, dns_cancel, dns_real_req_active_and_free,
}
use h2_client_proxy.Dns.Requests.Table.{IsTable}
use h2_client_proxy.Dns.Requests.Resolve.{new_req}
use h2_client_proxy.Dns.Requests.Reach.{Reach, start, next, resolves, Reach-IsTable}
use h2_client_proxy.Dns.Requests.Answers.{shared_answer}
use h2_client_proxy.Dns.Requests.Retry.{timed_out, dns_real_req_timercb_stalls}
use h2_client_proxy.Dns.Requests.Faults.{
  right_reply, no_address_crashes, literal_overwritten, cancel_crashes,
}

abbrev first : Bytes
first = codes "ab"

abbrev second : Bytes
second = codes "c"

first-IsLabel : IsLabel first
first-IsLabel = record { plain = omega arith; some_byte = omega arith; short = omega arith }

second-IsLabel : IsLabel second
second-IsLabel = record { plain = omega arith; some_byte = omega arith; short = omega arith }

decode_enc_str-install_domain_name_example :
    decode_enc_str 3 (7 ∷ install_domain_name (codes "ab.c")) 1 (zeros name_size)
    ≡ ok (7, codes "ab.c" ++ zeros 252)
unfolding install_domain_name c_str
decode_enc_str-install_domain_name_example =
    decode_enc_str-install_domain_name first (second ∷ []) (7 ∷ []) [] 3 first-IsLabel
      (second-IsLabel, tt) (omega arith) (omega arith)

decode_enc_str_loops_example : decode_enc_str 1000 (0xc0 ∷ 0 ∷ []) 0 (zeros name_size) ≡ stuck
decode_enc_str_loops_example =
    decode_enc_str_loops 1000 (0xc0 ∷ 0 ∷ []) 0 (zeros name_size) refl refl

-- The answer of a server for ab.c.
abbrev reply : Bytes
reply = reply_header 0 1 129 128 (
    install_domain_name (codes "ab.c") ++ (question_end ++ address_item 60 10 0 20 255 (zeros 400)))

abbrev decoded : Response
decoded = record {
  host = filled (codes "ab.c") 252;
  resps =
      record {
        type = 1;
        ip = ip_text 10 0 20 255;
        cname = zeros name_size;
        host = filled (codes "ab.c") 252;
      }
      ∷ [];
  rcode = 0;
}

decode_response-address_example : decode_response 4 reply ≡ ok (some decoded)
decode_response-address_example =
    decode_response-address first (second ∷ []) 3 0 1 129 128 60 10 0 20 255 (zeros 400)
      first-IsLabel (second-IsLabel, tt) (omega arith) (omega arith)

address_shown : ip_text 10 0 20 255 ≡ codes "10.0.20.255"
unfolding ip_text decimal
address_shown = refl

dns_cache_find-dns_cache_add_example :
    dns_cache_find (codes "ab.c") (dns_cache_add (codes "ab.c") (codes "10.0.0.1") [] dns_init)
    ≡ some (new_record (codes "ab.c") (codes "10.0.0.1") [])
unfolding dns_cache_find dns_init c_str str_eq
dns_cache_find-dns_cache_add_example =
    dns_cache_find-dns_cache_add (codes "ab.c") (codes "ab.c") (codes "10.0.0.1") [] dns_init
      (omega arith)

-- No host is a literal address.
abbrev no_literal : Bytes → Option Bytes
no_literal host = none

abbrev asked : Dns
asked = dns_resolve no_literal 1 (codes "ab.c") dns_init

asked-found : dns_real_req_find (codes "ab.c") asked ≡ some (new_req (codes "ab.c") 1)
unfolding dns_resolve dns_real_req_find dns_real_req_add dns_real_req_start dns_cache_find dns_init
    c_str str_eq bucket_of put_req
asked-found = refl

asked-Reach : Reach no_literal asked
unfolding c_str
asked-Reach = next start (resolves 1 (codes "ab.c") (omega arith) refl)

Reach-IsTable_example : IsTable asked
Reach-IsTable_example = Reach-IsTable no_literal asked asked-Reach

shared_answer_example :
    (dns_resolve no_literal 2 (codes "ab.c") asked).sent
    ≡ dns_send_req (host_of (codes "ab.c")) ∷ []
unfolding dns_init dns_real_req_find dns_cache_find c_str ips_of
shared_answer_example =
    (shared_answer no_literal 1 2 4 (codes "ab.c") reply (ip_text 10 0 20 255) [] decoded dns_init
      (Reach-IsTable no_literal dns_init start) refl refl refl (omega arith)
      decode_response-address_example refl refl refl).0

dns_real_req_timercb_stalls_example :
    (d' : Dns) × (dns_real_req_timercb (codes "ab.c") asked ≡ some d')
    × (d'.sent ≡ asked.sent)
    × (d'.replies ≡ asked.replies)
    × (dns_real_req_find (codes "ab.c") d' ≡ some (timed_out (new_req (codes "ab.c") 1)))
dns_real_req_timercb_stalls_example =
    dns_real_req_timercb_stalls (codes "ab.c") (new_req (codes "ab.c") 1) asked
      (Reach-IsTable no_literal asked asked-Reach) asked-found (omega arith)

-- A request for a host, with one user.
abbrev waiting : RealReq
waiting = new_req (codes "ab.c") 1

-- A record of another type.
abbrev text_record : ResponseRecord
text_record = record { type = 16; ip = []; cname = zeros name_size; host = zeros name_size }

no_address_crashes_example :
    dns_real_req_active_and_free waiting (text_record ∷ []) (pos 0) dns_init ≡ none
unfolding ips_of dns_cache_find dns_init c_str
no_address_crashes_example =
    no_address_crashes waiting (text_record ∷ []) dns_init (λ e. cc) refl refl

-- Every host is a literal address.
abbrev all_literal : Bytes → Option Bytes
all_literal host = some host

literal_overwritten_example :
    (dns_rightnow_tmrcb (
      dns_rightnow_tmrcb (
        dns_resolve all_literal 2
          (codes "10.0.0.2")
          (dns_resolve all_literal 1 (codes "10.0.0.1") dns_init)))).replies
    ≡ right_reply 1 (codes "10.0.0.2") ∷ right_reply 2 (codes "10.0.0.2") ∷ []
unfolding dns_init
literal_overwritten_example =
    literal_overwritten all_literal 1 2 (codes "10.0.0.1") (codes "10.0.0.2") (codes "10.0.0.1")
      (codes "10.0.0.2") dns_init refl refl refl

cancel_crashes_example : dns_cancel 1 (dns_resolve all_literal 1 (codes "10.0.0.1") dns_init) ≡ none
cancel_crashes_example =
    cancel_crashes all_literal 1 (codes "10.0.0.1") dns_init (inl (codes "10.0.0.1", refl))
