-- ===== src/RelayHttp2/Request/Nvs.antt =====
-- relay_http2.c: which fields of the client's header reach the HTTP/2 request, and how many entries
-- `relay_send_request` writes to its array `nvs[100]`.
use h2_client_proxy.Base.{
  ℕ, ◌+◌, true, Option, none, some, List, [], ◌∷◌, ◌≡◌, arith, if◌then◌else◌, Bytes, codes,
  str_case_eq, str_case_eq_symm, str_case_eq_trans,
}
use h2_client_proxy.Header.{Header, Field, find_value, header_value}
use h2_client_proxy.RelayHttp2.Types.{Nv}
use h2_client_proxy.RelayHttp2.Request.{is_skipped, field_nvs}

-- The first entry of a name, whatever the case of its letters.
unfoldable pub find_nv : List Nv → Bytes → Option Bytes
find_nv [] k = none
find_nv (x ∷ xs) k = if str_case_eq x.name k then some x.value else find_nv xs k

str_case_eq-cong : (a b c : Bytes) → str_case_eq a b ≡ true → str_case_eq a c ≡ str_case_eq b c
str_case_eq-cong a b c e =
    ground (arith, str_case_eq_trans b a c, str_case_eq_trans a b c, str_case_eq_symm a b)

is_skipped-case : (a b : Bytes) → str_case_eq a b ≡ true → is_skipped a ≡ is_skipped b
unfolding is_skipped
is_skipped-case a b e = ground (
  arith,
  str_case_eq-cong a b (codes "Host") e,
  str_case_eq-cong a b (codes "proxy-connection") e,
  str_case_eq-cong a b (codes "connection") e,
  str_case_eq-cong a b (codes "keep-alive") e,
)

find_nv-fields :
    (fs : List Field) (k : Bytes)
    → find_nv (field_nvs fs) k ≡ (if is_skipped k then none else find_value fs k)
unfolding find_nv field_nvs find_value
find_nv-fields [] k = ground arith
find_nv-fields (f ∷ fs) k = ground (arith, find_nv-fields fs k, is_skipped-case f.field k)

-- The entries of the request that come from fields: the four connection fields are not among them,
-- in any spelling, and every other name has the value there that it has in the client's header.
pub find_nv-field_nvs :
    (h : Header) (k : Bytes)
    → find_nv (field_nvs h.list_headers) k ≡ (if is_skipped k then none else header_value h k)
unfolding header_value
find_nv-field_nvs h k = find_nv-fields h.list_headers k

-- The fields that are not skipped.
abbrev pub count_kept : List Field → ℕ
count_kept [] = 0
count_kept (f ∷ fs) = (if is_skipped f.field then 0 else 1) + count_kept fs
