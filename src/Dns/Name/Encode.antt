-- ===== src/Dns/Name/Encode.antt =====
-- dns.c: `install_domain_name` writes the labels of a name, each with its length before it.
use h2_client_proxy.Base.{
  ◌%◌, ◌<◌, ◌≡◌, ◌≢◌, List, [], ◌∷◌, ◌++◌, refl, ap, ◌∙◌, arith, length, Bytes, NulFree,
  NulFree-append, c_str-eq_of_NulFree,
}
use h2_client_proxy.Dns.Name.{install_domain_name, put_lengths, label_length}

-- The bytes of a label: no terminator and no dot.
abbrev IsPlain : Bytes → Type 0
IsPlain [] = Unit {0}
IsPlain (c ∷ cs) = (c ≢ 0) × (c ≢ b'.') × IsPlain cs

-- A label that the decoder takes for one: its length byte is neither the end nor a pointer.
pub record IsLabel (l : Bytes) : Type 0 where
  pub plain : IsPlain l
  pub some_byte : 0 < length l
  pub short : length l < 0xc0

abbrev pub AllLabels : List Bytes → Type 0
AllLabels [] = Unit {0}
AllLabels (l ∷ ls) = IsLabel l × AllLabels ls

-- A name as text, from its first label and the others.
abbrev pub dotted : Bytes → List Bytes → Bytes
dotted l [] = l
dotted l (m ∷ ms) = l ++ (b'.' ∷ dotted m ms)

-- A name on the wire.
abbrev pub wire : List Bytes → Bytes
wire [] = 0 ∷ []
wire (l ∷ ls) = length l ∷ (l ++ wire ls)

pub IsPlain-NulFree : (l : Bytes) → IsPlain l → NulFree l
IsPlain-NulFree [] h = tt
IsPlain-NulFree (c ∷ cs) h = (h.0, IsPlain-NulFree cs h.2)

pub dotted-NulFree :
    (l : Bytes) (ls : List Bytes) → IsLabel l → AllLabels ls → NulFree (dotted l ls)
dotted-NulFree l [] h hs = IsPlain-NulFree l h.plain
dotted-NulFree l (m ∷ ms) h hs =
    NulFree-append l (b'.' ∷ dotted m ms) (IsPlain-NulFree l h.plain)
      ((omega arith), dotted-NulFree m ms hs.0 hs.1)

label_length_end : (l : Bytes) → IsPlain l → label_length l ≡ length l
unfolding label_length
label_length_end [] h = refl
label_length_end (c ∷ cs) h = ground (arith, label_length_end cs h.2)

label_length_dot : (l rest : Bytes) → IsPlain l → label_length (l ++ (b'.' ∷ rest)) ≡ length l
unfolding label_length
label_length_dot [] rest h = refl
label_length_dot (c ∷ cs) rest h = ground (arith, label_length_dot cs rest h.2)

put_lengths_plain : (l rest : Bytes) → IsPlain l → put_lengths (l ++ rest) ≡ l ++ put_lengths rest
unfolding put_lengths
put_lengths_plain [] rest h = refl
put_lengths_plain (c ∷ cs) rest h = ground (arith, put_lengths_plain cs rest h.2)

put_lengths_end : (l : Bytes) → IsPlain l → put_lengths l ≡ l ++ (0 ∷ [])
unfolding put_lengths
put_lengths_end [] h = refl
put_lengths_end (c ∷ cs) h = ground (arith, put_lengths_end cs h.2)

put_lengths-dotted :
    (l : Bytes) (ls : List Bytes)
    → IsLabel l
    → AllLabels ls
    → put_lengths (b'.' ∷ dotted l ls) ≡ wire (l ∷ ls)
unfolding put_lengths
put_lengths-dotted l [] h hs =
    let len : label_length l % 256 ≡ length l =
      omega (arith, label_length_end l h.plain, h.short) in
    let tail : put_lengths l ≡ l ++ (0 ∷ []) = put_lengths_end l h.plain in cc
put_lengths-dotted l (m ∷ ms) h hs =
    let rest = b'.' ∷ dotted m ms in
    let len : label_length (l ++ rest) % 256 ≡ length l =
      omega (arith, label_length_dot l (dotted m ms) h.plain, h.short) in
    let tail : put_lengths (l ++ rest) ≡ l ++ wire (m ∷ ms) =
      put_lengths_plain l rest h.plain ∙ ap (◌++◌ l) (put_lengths-dotted m ms hs.0 hs.1) in
    cc

-- The text of a name of one label or more is written as its labels with their lengths, and a 0.
pub install_domain_name-wire :
    (l : Bytes) (ls : List Bytes)
    → IsLabel l
    → AllLabels ls
    → install_domain_name (dotted l ls) ≡ wire (l ∷ ls)
unfolding install_domain_name
install_domain_name-wire l ls h hs =
    ap (λ t. put_lengths (b'.' ∷ t)) (c_str-eq_of_NulFree (dotted l ls) (dotted-NulFree l ls h hs))
    ∙ put_lengths-dotted l ls h hs
