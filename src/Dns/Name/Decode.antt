-- ===== src/Dns/Name/Decode.antt =====
-- dns.c: `decode_enc_str` reads the names that `install_domain_name` writes, and does not return
-- from a name that points to itself.
use h2_client_proxy.Base.{
  from_option, ok, stuck, ℕ, zero, suc, ◌+◌, ◌-◌, ◌<◌, ◌≡◌, ◌≢◌, some, List, [], ◌∷◌, ◌++◌, refl,
  ap, ◌∙◌, sym, arith, append_assoc, append-nil, length, take, drop, get_elem?, length-append,
  Bytes, NulFree, NulFree-append, take-append_le, drop-append_ge, take_all,
}
use h2_client_proxy.Dns.Name.{decode_enc_str, append_label, drop_last, install_domain_name}
use h2_client_proxy.Dns.Name.Encode.{
  dotted-NulFree, IsLabel, AllLabels, IsPlain-NulFree, dotted, wire, install_domain_name-wire,
}
use h2_client_proxy.Dns.Name.Array.{zeros, filled, append_label-filled, drop_last-filled}

-- The texts that the labels add, each with a dot behind it.
abbrev dot_after : List Bytes → Bytes
dot_after [] = []
dot_after (l ∷ ls) = (l ++ (b'.' ∷ [])) ++ dot_after ls

get_elem?-append : (pre r : Bytes) (c : ℕ) → get_elem? (pre ++ (c ∷ r)) (length pre) ≡ some c
get_elem?-append [] r c = refl
get_elem?-append (x ∷ pre) r c = get_elem?-append pre r c

-- The three things that may stand at the pointer.
decode_end :
    (fuel : ℕ) (msg : Bytes) (p : ℕ) (buf buf' : Bytes)
    → get_elem? msg p ≡ some 0
    → drop_last buf ≡ some buf'
    → decode_enc_str (suc fuel) msg p buf ≡ ok (p + 1, buf')
unfolding decode_enc_str from_option
decode_end fuel msg p buf buf' g d = ground arith

decode_label :
    (fuel : ℕ) (msg : Bytes) (p len : ℕ) (buf buf' : Bytes)
    → get_elem? msg p ≡ some len
    → len ≢ 0
    → len ≢ 0xc0
    → append_label msg (p + 1) len buf ≡ some buf'
    → decode_enc_str (suc fuel) msg p buf ≡ decode_enc_str fuel msg (p + 1 + len) buf'
unfolding decode_enc_str from_option
decode_label fuel msg p len buf buf' g nz np a = ground arith

pub decode_pointer :
    (fuel : ℕ) (msg : Bytes) (p low q : ℕ) (buf buf' : Bytes)
    → get_elem? msg p ≡ some 0xc0
    → get_elem? msg (p + 1) ≡ some low
    → decode_enc_str fuel msg low buf ≡ ok (q, buf')
    → decode_enc_str (suc fuel) msg p buf ≡ ok (p + 2, buf')
unfolding decode_enc_str from_option
decode_pointer fuel msg p low q buf buf' g h d = ground arith

label_at :
    (pre l r : Bytes) (c : ℕ) → take (length l) (drop (length pre + 1) (pre ++ (c ∷ (l ++ r)))) ≡ l
label_at pre l r c =
    let one : length pre + 1 - length pre ≡ 1 = omega arith in
    ap (take (length l)) (
      drop-append_ge (length pre + 1) pre (c ∷ (l ++ r)) (omega arith)
      ∙ ap (λ n. drop n (c ∷ (l ++ r))) one)
    ∙ (take-append_le (length l) l r (omega arith) ∙ take_all (length l) l (omega arith))

-- The labels stand in a message behind other bytes and before others.
decode_enc_str-wire :
    (ls : List Bytes) (pre post s t : Bytes) (k fuel : ℕ)
    → AllLabels ls
    → NulFree s
    → NulFree t
    → s ++ dot_after ls ≡ t ++ (b'.' ∷ [])
    → length (dot_after ls) < k
    → length ls < fuel
    → decode_enc_str fuel (pre ++ (wire ls ++ post)) (length pre) (filled s k)
      ≡ ok (length pre + length (wire ls), filled t (k - length (dot_after ls) + 1))
decode_enc_str-wire ls pre post s t k zero hs ns nt e room f = absurd (omega arith)
decode_enc_str-wire [] pre post s t k (suc fuel) hs ns nt e room f =
    let last : get_elem? (pre ++ (0 ∷ post)) (length pre) ≡ some 0 = get_elem?-append pre post 0 in
    let text : s ≡ t ++ (b'.' ∷ []) = sym (append-nil s) ∙ e in
    let d : drop_last (filled s k) ≡ some (filled t (suc k)) =
      ap (λ u. drop_last (filled u k)) text ∙ drop_last-filled t k nt in
    let left : suc k ≡ k - 0 + 1 = omega arith in
    decode_end fuel (pre ++ (0 ∷ post)) (length pre) (filled s k) (filled t (suc k)) last d
    ∙ ap (λ j. ok (length pre + 1, filled t j)) left
decode_enc_str-wire (l ∷ ls) pre post s t k (suc fuel) hs ns nt e room f =
    let next = pre ++ (length l ∷ l) in
    let text = l ++ (b'.' ∷ []) in
    let msg = pre ++ (wire (l ∷ ls) ++ post) in
    let nl = IsPlain-NulFree l hs.0.plain in
    let at : msg ≡ next ++ (wire ls ++ post) =
      ap (λ u. pre ++ (length l ∷ u)) (append_assoc l (wire ls) post)
      ∙ sym (append_assoc pre (length l ∷ l) (wire ls ++ post)) in
    let sizes : length (dot_after (l ∷ ls)) ≡ length l + 1 + length (dot_after ls) =
      omega (arith, length-append text (dot_after ls), length-append l (b'.' ∷ [])) in
    let here : length next ≡ length pre + 1 + length l =
      omega (arith, length-append pre (length l ∷ l)) in
    let label : append_label msg (length pre + 1) (length l) (filled s k)
        ≡ some (filled (s ++ text) (k - (length l + 1))) =
      append_label-filled msg l s (length pre + 1) k
        (ap (λ u. take (length l) (drop (length pre + 1) (pre ++ (length l ∷ u))))
            (append_assoc l (wire ls) post)
          ∙ label_at pre l (wire ls ++ post) (length l))
        (omega (arith, here, ap length at, length-append next (wire ls ++ post))) nl ns
        (omega arith) in
    let b = filled (s ++ text) (k - (length l + 1)) in
    let where_to : length next + length (wire ls) ≡ length pre + length (wire (l ∷ ls)) =
      omega (arith, here, length-append l (wire ls)) in
    let left : k - (length l + 1) - length (dot_after ls) + 1
        ≡ k - length (dot_after (l ∷ ls)) + 1 =
      omega (arith, sizes) in
    let ends : ◌≡◌ {A = ℕ × ℕ}
        (length next + length (wire ls), k - (length l + 1) - length (dot_after ls) + 1)
        (length pre + length (wire (l ∷ ls)), k - length (dot_after (l ∷ ls)) + 1) =
      cc in
    let rest =
      decode_enc_str-wire ls next post (s ++ text) t (k - (length l + 1)) fuel hs.1
        (NulFree-append s text ns (NulFree-append l (b'.' ∷ []) nl (omega arith, tt))) nt
        (append_assoc s text (dot_after ls) ∙ e) (omega arith) (omega arith) in
    decode_label fuel msg (length pre) (length l) (filled s k)
      (filled (s ++ text) (k - (length l + 1)))
      (get_elem?-append pre ((l ++ wire ls) ++ post) (length l))
      (λ z. omega (arith, hs.0.some_byte)) (λ z. omega (arith, hs.0.short)) label
    ∙ (ap (λ m. decode_enc_str fuel m (length pre + 1 + length l) b) at
        ∙ (ap (λ p. decode_enc_str fuel (next ++ (wire ls ++ post)) p b) (sym here)
            ∙ (rest ∙ ap (λ r. ok (r.0, filled t r.1)) ends)))

dot_after-dotted : (l : Bytes) (ls : List Bytes) → dot_after (l ∷ ls) ≡ dotted l ls ++ (b'.' ∷ [])
dot_after-dotted l [] = append-nil (l ++ (b'.' ∷ []))
dot_after-dotted l (m ∷ ms) =
    append_assoc l (b'.' ∷ []) (dot_after (m ∷ ms))
    ∙ (ap (λ u. l ++ (b'.' ∷ u)) (dot_after-dotted m ms)
        ∙ sym (append_assoc l (b'.' ∷ dotted m ms) (b'.' ∷ [])))

-- The size of `host` and `cname` in the records.
abbrev pub name_size : ℕ
name_size = 256

-- A name of less than 255 bytes, whose labels have from 1 to 191 bytes, is written into a message
-- and read back into an empty array: the name is the same, and the pointer stands behind it. More
-- fuel than the name has labels is enough.
pub decode_enc_str-install_domain_name :
    (l : Bytes) (ls : List Bytes) (pre post : Bytes) (fuel : ℕ)
    → IsLabel l
    → AllLabels ls
    → length (dotted l ls) < 255
    → length (l ∷ ls) < fuel
    → decode_enc_str fuel
        (pre ++ (install_domain_name (dotted l ls) ++ post))
        (length pre)
        (zeros name_size)
      ≡ ok (
        length pre + length (install_domain_name (dotted l ls)),
        filled (dotted l ls) (name_size - length (dotted l ls)),
      )
decode_enc_str-install_domain_name l ls pre post fuel h hs short enough =
    let text = dot_after-dotted l ls in
    let len : length (dot_after (l ∷ ls)) ≡ length (dotted l ls) + 1 =
      omega (arith, ap length text, length-append (dotted l ls) (b'.' ∷ [])) in
    let left : name_size - length (dot_after (l ∷ ls)) + 1 ≡ name_size - length (dotted l ls) =
      omega (arith, len) in
    rw (install_domain_name-wire l ls h hs) (
      decode_enc_str-wire (l ∷ ls) pre post [] (dotted l ls) name_size fuel (h, hs) tt
        (dotted-NulFree l ls h hs) text (omega arith) (omega arith)
      ∙ ap (λ j. ok (length pre + length (wire (l ∷ ls)), filled (dotted l ls) j)) left)

-- A pointer to itself, in the first 256 bytes of a message, is followed for ever: however much
-- fuel there is, the reading does not return.
pub decode_enc_str_loops :
    (fuel : ℕ) (msg : Bytes) (p : ℕ) (buf : Bytes)
    → get_elem? msg p ≡ some 0xc0
    → get_elem? msg (p + 1) ≡ some p
    → decode_enc_str fuel msg p buf ≡ stuck
unfolding decode_enc_str from_option
decode_enc_str_loops zero msg p buf g h = refl
decode_enc_str_loops (suc fuel) msg p buf g h =
    ground (arith, decode_enc_str_loops fuel msg p buf g h)
