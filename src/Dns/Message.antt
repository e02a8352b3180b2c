-- ===== src/Dns/Message.antt =====
-- dns.c: the messages, `dns_send_req` and `decode_response`. A received message is the array of 512
-- bytes with zeros behind what was received.
pub mod Answer
use h2_client_proxy.Base.{
  Outcome, ok, crash, stuck, ◌>>=◌, from_option, ℕ, zero, suc, ◌+◌, ◌*◌, ◌/◌, ◌%◌, ◌==◌, Bool, true,
  false, Option, none, some, List, [], ◌∷◌, ◌++◌, ltb, if◌then◌else◌, get_elem?, Bytes, codes,
}
use h2_client_proxy.Dns.Name.{install_domain_name, decode_enc_str}
use h2_client_proxy.Dns.Name.Array.{zeros}
use h2_client_proxy.Dns.Name.Decode.{name_size}

-- The twelve bytes in front: the numbers that are set are the id, recursion desired, and one
-- question.
abbrev query_header : Bytes
query_header = 0 ∷ 1 ∷ 1 ∷ 0 ∷ 0 ∷ 1 ∷ 0 ∷ 0 ∷ 0 ∷ 0 ∷ 0 ∷ 0 ∷ []

-- Behind the name: the type and the class of the question.
abbrev pub question_end : Bytes
question_end = 0 ∷ 1 ∷ 0 ∷ 1 ∷ []

-- The bytes that `dns_send_req` passes to `sendto`; the socket is watched for reading as well.
unfoldable pub dns_send_req : Bytes → Bytes
dns_send_req host = query_header ++ (install_domain_name host ++ question_end)

-- `struct response_record`; `ip` is the text in the array.
pub record ResponseRecord : Type 0 where
  pub type : ℕ
  pub ip : Bytes
  pub cname : Bytes
  pub host : Bytes

-- `p[0]`
unfoldable pub byte_at : Bytes → ℕ → Outcome ℕ
unfolding from_option
byte_at msg p = from_option (get_elem? msg p)

-- `(*p) * 255 + (*(p + 1))`
unfoldable pub read16 : Bytes → ℕ → Outcome ℕ
read16 msg p = byte_at msg p >>= λ hi. byte_at msg (p + 1) >>= λ lo. ok (hi * 255 + lo)

-- `%d` of a byte, which has at most three digits.
unfoldable pub decimal : ℕ → ℕ → Bytes → Bytes
decimal zero n out = out
decimal (suc rounds) n out =
    let more = decimal rounds (n / 10) ((n % 10 + b'0') ∷ out) in
    if ltb n 10 then (n + b'0') ∷ out else more

-- "%d.%d.%d.%d"
unfoldable pub ip_text : ℕ → ℕ → ℕ → ℕ → Bytes
ip_text a b c d = decimal 3 a (b'.' ∷ decimal 3 b (b'.' ∷ decimal 3 c (b'.' ∷ decimal 3 d [])))

unfoldable pub read_ip : Bytes → ℕ → Outcome Bytes
read_ip msg p = do
  a ← byte_at msg p
  b ← byte_at msg (p + 1)
  c ← byte_at msg (p + 2)
  d ← byte_at msg (p + 3)
  ok (ip_text a b c d)

-- An address, a canonical name, or something else.
unfoldable pub read_body : ℕ → Bytes → ℕ → ResponseRecord → Outcome ResponseRecord
unfolding read_ip
read_body fuel msg p resp = elim (resp.type == 1) [
  | true ↦ read_ip msg p >>= λ ip. ok (record resp { ip = ip })
  | false ↦ elim (resp.type == 5) [
    | true ↦ decode_enc_str fuel msg p (zeros name_size) >>= λ r. ok (record resp { cname = r.1 })
    | false ↦ ok resp
  ]
]

-- The pointer behind the item, and the record. The class and the time to live are read only.
unfoldable pub decode_resopnse_item : ℕ → Bytes → ℕ → Outcome (ℕ × ResponseRecord)
unfolding read_body
decode_resopnse_item fuel msg p = do
  (q, host) ← decode_enc_str fuel msg p (zeros name_size)
  type ← read16 msg q
  qclass ← read16 msg (q + 2)
  ttl ← byte_at msg (q + 7)
  rdlen ← read16 msg (q + 8)
  resp ←
      read_body fuel msg (q + 10)
        (record { type = type; ip = []; cname = zeros name_size; host = host })
  ok (q + 10 + rdlen, resp)

unfoldable pub decode_request_items : ℕ → Bytes → ℕ → Outcome (ℕ × Bytes)
decode_request_items fuel msg p =
    decode_enc_str fuel msg p (zeros name_size) >>= λ r. ok (r.0 + 4, r.1)

-- `count` items in a row.
unfoldable pub read_items {ℓ} : {A : Type ℓ} → (ℕ → Outcome (ℕ × A)) → ℕ → ℕ → Outcome (ℕ × List A)
read_items read zero p = ok (p, [])
read_items read (suc count) p = do
  (q, item) ← read p
  (end, items) ← read_items read count q
  ok (end, item ∷ items)

-- What `dns_real_req_active_and_free` is called with, and the host of the first question.
pub record Response : Type 0 where
  pub host : Bytes
  pub resps : List ResponseRecord
  pub rcode : ℕ

unfoldable pub first_host : List Bytes → List ResponseRecord → ℕ → Option Response
first_host [] resps rcode = none
first_host (host ∷ hosts) resps rcode = some (record { host = host; resps = resps; rcode = rcode })

-- None if there is no question.
unfoldable pub decode_response : ℕ → Bytes → Outcome (Option Response)
unfolding first_host
decode_response fuel msg = do
  flags ← byte_at msg 3
  dcount ← read16 msg 4
  answer_count ← read16 msg 6
  (p, reqs) ← read_items (decode_request_items fuel msg) dcount 12
  (end, resps) ← read_items (decode_resopnse_item fuel msg) answer_count p
  ok (first_host reqs resps (flags % 16))
