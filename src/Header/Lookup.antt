-- ===== src/Header/Lookup.antt =====
-- header.c: `header_value` and `header_add_pair`.
use h2_client_proxy.Base.{
  true, Option, none, some, List, [], ◌∷◌, ◌++◌, ◌≡◌, arith, if◌then◌else◌, Bytes, c_str,
  str_case_eq, str_case_eq_symm, str_case_eq_trans,
}
use h2_client_proxy.Header.{Header, Field, header_value, header_add_pair, find_value}

abbrev or_else : Option Bytes → Option Bytes → Option Bytes
or_else none o = o
or_else (some v) o = some v

find_value-append :
    (xs ys : List Field) (k : Bytes)
    → find_value (xs ++ ys) k ≡ or_else (find_value xs k) (find_value ys k)
unfolding find_value
find_value-append [] ys k = ground arith
find_value-append (x ∷ xs) ys k = ground (arith, find_value-append xs ys k)

-- A pair that is added is found under its name, whatever the case of the letters, unless an
-- earlier field has that name: the first one counts. Other names are not affected.
pub header_value-header_add_pair :
    (h : Header) (field value k : Bytes)
    → header_value (header_add_pair h field value) k ≡ elim (header_value h k) [
      | some v ↦ some v
      | none ↦ if str_case_eq (c_str field) k then some (c_str value) else none
    ]
unfolding header_value header_add_pair find_value
header_value-header_add_pair h field value k = ground (
  arith,
  find_value-append h.list_headers (record { field = c_str field; value = c_str value } ∷ []) k,
)

find_value-case :
    (fs : List Field) (j k : Bytes) → str_case_eq j k ≡ true → find_value fs j ≡ find_value fs k
unfolding find_value
find_value-case [] j k e = ground arith
find_value-case (f ∷ fs) j k e = ground (
  arith,
  find_value-case fs j k e,
  str_case_eq_trans f.field j k,
  str_case_eq_trans f.field k j,
  str_case_eq_symm j k,
)

-- Two spellings of a name that differ in the case of letters only find the same value.
pub header_value-case :
    (h : Header) (j k : Bytes) → str_case_eq j k ≡ true → header_value h j ≡ header_value h k
unfolding header_value
header_value-case h j k e = find_value-case h.list_headers j k e
