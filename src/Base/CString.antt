-- ===== src/Base/CString.antt =====
-- C strings: bytes up to the terminating 0, and the functions of string.h that the program calls.
use Prim.Native.Char.{code}
use Prim.Native.String.{String}
use Prim.Native.Nat.{ℕ, ◌+◌}
use mathlib.Core.Path.{◌≡◌, refl}
use mathlib.Core.Logic.{◌≢◌}
use mathlib.Core.Bool.{Bool, true, false, ◌&&◌}
use mathlib.Core.List.{List, [], ◌∷◌, ◌++◌}
use native.Mathlib.Omega.{arith}
use h2_client_proxy.Base.Tests.{leb, ◌==◌, if◌then◌else◌}

abbrev pub Bytes : Type 0
Bytes = List ℕ

abbrev pub codes : String → Bytes
codes String.[] = []
codes (String.◌∷◌ c s) = code c ∷ codes s

-- What a reader of the bytes as a C string sees: all before the first 0.
unfoldable pub c_str : Bytes → Bytes
c_str [] = []
c_str (c ∷ cs) = if c == 0 then [] else c ∷ c_str cs

-- No byte is the terminator.
abbrev pub NulFree : Bytes → Type 0
NulFree [] = Unit {0}
NulFree (c ∷ cs) = (c ≢ 0) × NulFree cs

pub NulFree-append : (a b : Bytes) → NulFree a → NulFree b → NulFree (a ++ b)
NulFree-append [] b ha hb = hb
NulFree-append (c ∷ a) b ha hb = (ha.0, NulFree-append a b ha.1 hb)

pub c_str-NulFree : (s : Bytes) → NulFree (c_str s)
unfolding c_str
c_str-NulFree [] = tt
c_str-NulFree (c ∷ cs) = ground (arith, c_str-NulFree cs)

pub c_str-eq_of_NulFree : (s : Bytes) → NulFree s → c_str s ≡ s
unfolding c_str
c_str-eq_of_NulFree [] h = refl
c_str-eq_of_NulFree (c ∷ cs) h = ground (arith, c_str-eq_of_NulFree cs h.1)

-- A C string followed by anything reads as the string and what the rest shows.
pub c_str-append : (a b : Bytes) → NulFree a → c_str (a ++ b) ≡ a ++ c_str b
unfolding c_str
c_str-append [] b h = refl
c_str-append (c ∷ a) b h = ground (arith, c_str-append a b h.1)

unfoldable pub to_lower : ℕ → ℕ
to_lower c = if leb b'A' c && leb c b'Z' then c + 32 else c

-- `strcasecmp(a, b) == 0`
unfoldable pub str_case_eq : Bytes → Bytes → Bool
unfolding to_lower
str_case_eq [] [] = true
str_case_eq (a ∷ s) (b ∷ t) = to_lower a == to_lower b && str_case_eq s t
str_case_eq _ _ = false

-- `strcmp(a, b) == 0`
unfoldable pub str_eq : Bytes → Bytes → Bool
str_eq [] [] = true
str_eq (a ∷ s) (b ∷ t) = a == b && str_eq s t
str_eq _ _ = false

pub str_eq→eq : (a b : Bytes) → str_eq a b ≡ true → a ≡ b
unfolding str_eq
str_eq→eq [] [] h = refl
str_eq→eq (x ∷ a) (y ∷ b) h = ground (arith, str_eq→eq a b)
str_eq→eq [] (y ∷ b) h = cc
str_eq→eq (x ∷ a) [] h = cc

pub str_eq_refl : (a : Bytes) → str_eq a a ≡ true
unfolding str_eq
str_eq_refl [] = refl
str_eq_refl (x ∷ a) = ground (arith, str_eq_refl a)

pub str_case_eq_refl : (a : Bytes) → str_case_eq a a ≡ true
unfolding str_case_eq
str_case_eq_refl [] = refl
str_case_eq_refl (x ∷ a) = ground (arith, str_case_eq_refl a)

pub str_case_eq_symm : (a b : Bytes) → str_case_eq a b ≡ str_case_eq b a
unfolding str_case_eq
str_case_eq_symm [] [] = refl
str_case_eq_symm (x ∷ a) (y ∷ b) = ground (arith, str_case_eq_symm a b)
str_case_eq_symm [] (y ∷ b) = refl
str_case_eq_symm (x ∷ a) [] = refl

pub str_case_eq_trans :
    (a b c : Bytes) → str_case_eq a b ≡ true → str_case_eq b c ≡ true → str_case_eq a c ≡ true
unfolding str_case_eq
str_case_eq_trans [] [] c p q = q
str_case_eq_trans (x ∷ a) (y ∷ b) (z ∷ c) p q = ground (arith, str_case_eq_trans a b c)
str_case_eq_trans (x ∷ a) (y ∷ b) [] p q = cc
str_case_eq_trans [] (y ∷ b) c p q = cc
str_case_eq_trans (x ∷ a) [] c p q = cc
