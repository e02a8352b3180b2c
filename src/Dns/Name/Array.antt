-- ===== src/Dns/Name/Array.antt =====
-- dns.c: the arrays into which `decode_enc_str` copies: a text and zeros behind it.
use h2_client_proxy.Base.{
  false, ltb, ◌==◌, ℕ, zero, suc, ◌+◌, ◌-◌, ◌≤◌, ◌≡◌, some, [], ◌∷◌, ◌++◌, refl, ap, ◌∙◌, sym,
  arith, append_assoc, true, append-nil, length, take, drop, set, replicate, length-append, Bytes,
  NulFree, NulFree-append, c_str, c_str-append, take-append_le, drop-append_ge, take_all, leb,
}
use h2_client_proxy.Dns.Name.{append_label, write_at, drop_last, str_len}

-- An array that holds a text and zeros behind it.
abbrev pub zeros : ℕ → Bytes
zeros k = replicate k 0

abbrev pub filled : Bytes → ℕ → Bytes
filled s k = s ++ zeros k

c_str-zeros : (k : ℕ) → c_str (zeros k) ≡ []
unfolding c_str
c_str-zeros zero = refl
c_str-zeros (suc k) = refl

c_str-filled : (s : Bytes) (k : ℕ) → NulFree s → c_str (filled s k) ≡ s
c_str-filled s k h = c_str-append s (zeros k) h ∙ (ap (◌++◌ s) (c_str-zeros k) ∙ append-nil s)

drop-zeros : (n k : ℕ) → drop n (zeros k) ≡ zeros (k - n)
drop-zeros zero k = ap zeros (omega arith)
drop-zeros (suc n) zero = let none_left : 0 ≡ 0 - suc n = omega arith in ap zeros none_left
drop-zeros (suc n) (suc k) = drop-zeros n k ∙ ap zeros (omega arith)

length-zeros : (k : ℕ) → length (zeros k) ≡ k
length-zeros zero = refl
length-zeros (suc k) = omega (arith, length-zeros k)

length-filled : (s : Bytes) (k : ℕ) → length (filled s k) ≡ length s + k
length-filled s k = omega (arith, length-append s (zeros k), length-zeros k)

-- A write right behind the text, where it fits.
write_at-filled :
    (s src : Bytes) (n k : ℕ)
    → n ≡ length s
    → length src ≤ k
    → write_at n src (filled s k) ≡ some (filled (s ++ src) (k - length src))
unfolding write_at
write_at-filled s src n k e h =
    let before : take n (filled s k) ≡ s =
      take-append_le n s (zeros k) (omega arith) ∙ take_all n s (omega arith) in
    let behind : drop (n + length src) (filled s k) ≡ zeros (k - length src) =
      drop-append_ge (n + length src) s (zeros k) (omega arith)
      ∙ (drop-zeros (n + length src - length s) k ∙ ap zeros (omega arith)) in
    let room : leb (n + length src) (length (filled s k)) ≡ true =
      ground (arith, length-filled s k) in
    rw (room, before, behind) (ap some (sym (append_assoc s src (zeros (k - length src)))))

dot_zero : (u : Bytes) (j : ℕ) → filled (u ++ (b'.' ∷ 0 ∷ [])) j ≡ filled (u ++ (b'.' ∷ [])) (suc j)
dot_zero u j =
    append_assoc u (b'.' ∷ 0 ∷ []) (zeros j) ∙ sym (append_assoc u (b'.' ∷ []) (zeros (suc j)))

pub append_label-filled :
    (msg l s : Bytes) (p k : ℕ)
    → take (length l) (drop p msg) ≡ l
    → p + length l ≤ length msg
    → NulFree l
    → NulFree s
    → length l + 2 ≤ k
    → append_label msg p (length l) (filled s k)
      ≡ some (filled (s ++ (l ++ (b'.' ∷ []))) (k - (length l + 1)))
unfolding append_label
append_label-filled msg l s p k e inside nl ns room =
    let len : leb (p + length l) (length msg) ≡ true = ground arith in
    let first : write_at (str_len (filled s k)) l (filled s k)
        ≡ some (filled (s ++ l) (k - length l)) =
      write_at-filled s l (str_len (filled s k)) k (ap length (c_str-filled s k ns))
        (omega arith) in
    let b1 = filled (s ++ l) (k - length l) in
    let second : write_at (str_len b1) (b'.' ∷ 0 ∷ []) b1
        ≡ some (filled ((s ++ l) ++ (b'.' ∷ 0 ∷ [])) (k - length l - 2)) =
      write_at-filled (s ++ l) (b'.' ∷ 0 ∷ []) (str_len b1) (k - length l)
        (ap length (c_str-filled (s ++ l) (k - length l) (NulFree-append s l ns nl)))
        (omega arith) in
    let left : suc (k - length l - 2) ≡ k - (length l + 1) = omega arith in
    rw (len, e, first)
      (second
        ∙ ap some (
            dot_zero (s ++ l) (k - length l - 2)
            ∙ (ap (λ u. filled u (suc (k - length l - 2))) (append_assoc s l (b'.' ∷ []))
                ∙ ap (filled (s ++ (l ++ (b'.' ∷ [])))) left)))

set-append : (t r : Bytes) (c v : ℕ) → set (t ++ (c ∷ r)) (length t) v ≡ t ++ (v ∷ r)
set-append [] r c v = refl
set-append (x ∷ t) r c v = ap (◌∷◌ x) (set-append t r c v)

pub drop_last-filled :
    (t : Bytes) (k : ℕ)
    → NulFree t
    → drop_last (filled (t ++ (b'.' ∷ [])) k) ≡ some (filled t (suc k))
unfolding drop_last
drop_last-filled t k nt =
    let b = filled (t ++ (b'.' ∷ [])) k in
    let len : str_len b ≡ suc (length t) = omega (
      arith,
      ap length
          (c_str-filled (t ++ (b'.' ∷ [])) k (NulFree-append t (b'.' ∷ []) nt (omega arith, tt))),
      length-append t (b'.' ∷ []),
    ) in
    let size = length-filled (t ++ (b'.' ∷ [])) k in
    let some_byte : (str_len b == 0) ≡ false = ground (arith, len) in
    let inside : ltb (str_len b - 1) (length b) ≡ true =
      ground (arith, len, size, length-append t (b'.' ∷ [])) in
    let index : str_len b - 1 ≡ length t = omega (arith, len) in
    rw (some_byte, inside)
      (ap some (
        ap (λ n. set b n 0) index
        ∙ (ap (λ u. set u (length t) 0) (append_assoc t (b'.' ∷ []) (zeros k))
            ∙ set-append t (zeros k) (b'.') 0)))
