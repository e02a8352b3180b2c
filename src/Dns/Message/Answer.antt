-- ===== src/Dns/Message/Answer.antt =====
-- dns.c: the answer to a query that `dns_send_req` sent.
use h2_client_proxy.Base.{
  ok, from_option, ℕ, suc, ◌+◌, ◌-◌, ◌*◌, ◌%◌, ◌<◌, ◌≡◌, some, List, [], ◌∷◌, ◌++◌, refl, ap, ◌∙◌,
  sym, arith, append_assoc, length, length-append, get_elem?, Bytes,
}
use h2_client_proxy.Dns.Name.Array.{zeros, filled}
use h2_client_proxy.Dns.Name.Encode.{IsLabel, AllLabels, dotted}
use h2_client_proxy.Dns.Name.Decode.{name_size, decode_pointer, decode_enc_str-install_domain_name}
use h2_client_proxy.Dns.Name.{decode_enc_str}
use h2_client_proxy.Dns.Message.{
  question_end, install_domain_name, ResponseRecord, byte_at, read16, ip_text, read_ip, read_body,
  decode_resopnse_item, decode_request_items, read_items, first_host, decode_response,
}

get_elem?-past : (pre r : Bytes) (k : ℕ) → get_elem? (pre ++ r) (length pre + k) ≡ get_elem? r k
get_elem?-past [] r k = ap (get_elem? r) (omega arith)
get_elem?-past (x ∷ pre) r k =
    let step : suc (length pre) + k ≡ suc (length pre + k) = omega arith in
    ap (get_elem? (x ∷ (pre ++ r))) step ∙ get_elem?-past pre r k

-- A byte of a part of a message.
byte_at-append :
    (pre r : Bytes) (i k c : ℕ)
    → i ≡ length pre + k
    → get_elem? r k ≡ some c
    → byte_at (pre ++ r) i ≡ ok c
unfolding byte_at from_option
byte_at-append pre r i k c e g =
    let there : get_elem? (pre ++ r) i ≡ some c =
      ap (get_elem? (pre ++ r)) e ∙ (get_elem?-past pre r k ∙ g) in
    rw there refl

read16_run :
    (msg : Bytes) (p hi lo : ℕ)
    → byte_at msg p ≡ ok hi
    → byte_at msg (p + 1) ≡ ok lo
    → read16 msg p ≡ ok (hi * 255 + lo)
unfolding read16
read16_run msg p hi lo h l = rw (h, l) refl

read_ip_run :
    (msg : Bytes) (p a b c d : ℕ)
    → byte_at msg p ≡ ok a
    → byte_at msg (p + 1) ≡ ok b
    → byte_at msg (p + 2) ≡ ok c
    → byte_at msg (p + 3) ≡ ok d
    → read_ip msg p ≡ ok (ip_text a b c d)
unfolding read_ip
read_ip_run msg p a b c d ea eb ec ed = rw (ea, eb, ec, ed) refl

-- The record of an address.
abbrev pub address : Bytes → Bytes → ResponseRecord
address host ip = record { type = 1; ip = ip; cname = zeros name_size; host = host }

-- An item of type 1 whose data has four bytes.
address_run :
    (fuel : ℕ) (msg host ip : Bytes) (p q class ttl : ℕ)
    → decode_enc_str fuel msg p (zeros name_size) ≡ ok (q, host)
    → read16 msg q ≡ ok 1
    → read16 msg (q + 2) ≡ ok class
    → byte_at msg (q + 7) ≡ ok ttl
    → read16 msg (q + 8) ≡ ok 4
    → read_ip msg (q + 10) ≡ ok ip
    → decode_resopnse_item fuel msg p ≡ ok (q + 10 + 4, address host ip)
unfolding decode_resopnse_item read_body
address_run fuel msg host ip p q class ttl name t c l r i = rw (name, t, c, l, r, i) refl

-- A message with one question and one answer.
response_run :
    (fuel : ℕ) (msg host : Bytes) (resp : ResponseRecord) (flags p end : ℕ)
    → byte_at msg 3 ≡ ok flags
    → read16 msg 4 ≡ ok 1
    → read16 msg 6 ≡ ok 1
    → decode_request_items fuel msg 12 ≡ ok (p, host)
    → decode_resopnse_item fuel msg p ≡ ok (end, resp)
    → decode_response fuel msg
      ≡ ok (some (record { host = host; resps = resp ∷ []; rcode = flags % 16 }))
unfolding decode_response read_items first_host
response_run fuel msg host resp flags p end f d a q r = rw (f, d, a, q, r) refl

-- The header of a reply with one question and one answer, from the bytes that may vary.
abbrev pub reply_header : ℕ → ℕ → ℕ → ℕ → Bytes → Bytes
reply_header id low flags rcode rest =
    id ∷ low ∷ flags ∷ rcode ∷ 0 ∷ 1 ∷ 0 ∷ 1 ∷ 0 ∷ 0 ∷ 0 ∷ 0 ∷ rest

-- An answer of type 1 for the name at the offset 12, which is the one of the question, with the
-- bytes of the time to live and of the address.
abbrev pub address_item : ℕ → ℕ → ℕ → ℕ → ℕ → Bytes → Bytes
address_item ttl a b c d rest =
    0xc0 ∷ 12 ∷ 0 ∷ 1 ∷ 0 ∷ 1 ∷ 0 ∷ 0 ∷ 0 ∷ ttl ∷ 0 ∷ 4 ∷ a ∷ b ∷ c ∷ d ∷ rest

-- A server repeats the question that `dns_send_req` sent, for a name of labels of 1 to 191 bytes and
-- of less than 255 bytes in all, and gives one answer of type 1 and class 1, whose name points to
-- the question and whose time to live is below 256, with no records of the other two kinds, whatever
-- the identifier, the flags and the bytes behind the answer are: the message is decoded, within its
-- bounds, to the name that was asked for, the address as text and the code of the reply. More fuel than the name has labels, and one for the pointer, is enough.
pub decode_response-address :
    (l : Bytes) (ls : List Bytes) (fuel id low flags rcode ttl a b c d : ℕ) (post : Bytes)
    → IsLabel l
    → AllLabels ls
    → length (dotted l ls) < 255
    → length (l ∷ ls) < fuel
    → let host = filled (dotted l ls) (name_size - length (dotted l ls)) in
      decode_response (suc fuel) (
        reply_header id low flags rcode
          (install_domain_name (dotted l ls) ++ (question_end ++ address_item ttl a b c d post)))
      ≡ ok (
          some (record {
            host = host;
            resps =
                record { type = 1; ip = ip_text a b c d; cname = zeros name_size; host = host }
                ∷ [];
            rcode = rcode % 16;
          }))
unfolding byte_at from_option decode_request_items
decode_response-address l ls fuel id low flags rcode ttl a b c d post h hs short enough =
    let name = install_domain_name (dotted l ls) in
    let head = reply_header id low flags rcode [] in
    let item = address_item ttl a b c d post in
    let msg = head ++ (name ++ (question_end ++ item)) in
    let pre = head ++ (name ++ question_end) in
    let host = filled (dotted l ls) (name_size - length (dotted l ls)) in
    let p = 12 + length name + 4 in
    let parts : msg ≡ pre ++ item = ap (◌++◌ head) (sym (append_assoc name question_end item)) in
    let here : length pre ≡ p = omega (arith, length-append name question_end) in
    let byte : (i k x : ℕ) → i ≡ length pre + k → get_elem? item k ≡ some x → byte_at msg i ≡ ok x =
      λ i k x e g. ap (λ m. byte_at m i) parts ∙ byte_at-append pre item i k x e g in
    let get : (k x i : ℕ)
        → i ≡ length pre + k
        → get_elem? item k ≡ some x
        → get_elem? msg i ≡ some x =
      λ k x i e g.
        ap (λ m. get_elem? m i) parts
        ∙ (ap (get_elem? (pre ++ item)) e ∙ (get_elem?-past pre item k ∙ g)) in
    let asked =
      decode_enc_str-install_domain_name l ls head (question_end ++ item) (suc fuel) h hs short
        (omega arith) in
    let named =
      decode_enc_str-install_domain_name l ls head (question_end ++ item) fuel h hs short enough in
    let item_name : decode_enc_str (suc fuel) msg p (zeros name_size) ≡ ok (p + 2, host) =
      decode_pointer fuel msg p 12 (12 + length name) (zeros name_size) host
        (get 0 0xc0 p (omega (arith, here)) refl) (get 1 12 (p + 1) (omega (arith, here)) refl)
        named in
    let q = p + 2 in
    let body : decode_resopnse_item (suc fuel) msg p
        ≡ ok (q + 10 + 4, address host (ip_text a b c d)) =
      address_run (suc fuel) msg host (ip_text a b c d) p q 1 ttl item_name
        (read16_run msg q 0 1 (byte q 2 0 (omega (arith, here)) refl)
          (byte (q + 1) 3 1 (omega (arith, here)) refl))
        (read16_run msg (q + 2) 0 1 (byte (q + 2) 4 0 (omega (arith, here)) refl)
          (byte (q + 2 + 1) 5 1 (omega (arith, here)) refl))
        (byte (q + 7) 9 ttl (omega (arith, here)) refl)
        (read16_run msg (q + 8) 0 4 (byte (q + 8) 10 0 (omega (arith, here)) refl)
          (byte (q + 8 + 1) 11 4 (omega (arith, here)) refl))
        (read_ip_run msg (q + 10) a b c d (byte (q + 10) 12 a (omega (arith, here)) refl)
          (byte (q + 10 + 1) 13 b (omega (arith, here)) refl)
          (byte (q + 10 + 2) 14 c (omega (arith, here)) refl)
          (byte (q + 10 + 3) 15 d (omega (arith, here)) refl)) in
    let question : decode_request_items (suc fuel) msg 12 ≡ ok (p, host) =
      rw (decode_request_items, asked) refl in
    response_run (suc fuel) msg host (address host (ip_text a b c d)) rcode p (q + 10 + 4) refl
      (read16_run msg 4 0 1 refl refl) (read16_run msg 6 0 1 refl refl) question body
