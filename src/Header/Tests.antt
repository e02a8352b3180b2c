-- ===== src/Header/Tests.antt =====
-- Runs of the functions of header.c on small headers.
use h2_client_proxy.Base.{
  ◌<◌, false, none, some, [], ◌∷◌, ◌++◌, ◌≡◌, refl, arith, if◌then◌else◌, codes, c_str, str_case_eq,
}
use h2_client_proxy.Header.{
  Header, header_new, header_add_pair, header_value, header_append_complete, header_append_value,
  header_to_str, header_fields, field_line,
}
use h2_client_proxy.Header.Reassembly.{Pair, pieces, read_header, read_header-pieces, all_joined}
use h2_client_proxy.Header.Lookup.{header_value-header_add_pair, header_value-case}
use h2_client_proxy.Header.Render.{header_to_str-render, request_line, render}
use h2_client_proxy.Header.Fields.{header_fields_overflow}

abbrev host : Pair
host = record {
  first_field = codes "Ho";
  more_field = codes "st" ∷ [];
  first_value = codes "a.";
  more_value = codes "b" ∷ codes "c" ∷ [];
}

abbrev accept : Pair
accept = record {
  first_field = codes "Accept";
  more_field = [];
  first_value = codes "*/*";
  more_value = [];
}

read_header-pieces_example :
    read_header header_new (pieces (host ∷ accept ∷ []))
    ≡ some (record header_new {
      last_field = none;
      last_value = none;
      is_last_value = false;
      list_headers = header_new.list_headers ++ all_joined (host ∷ accept ∷ []);
    })
unfolding header_new
read_header-pieces_example =
    read_header-pieces (host ∷ accept ∷ []) header_new
      (record { no_field = refl; no_value = refl; not_value = refl }) (omega arith)

-- A value before any name fails the assertion.
value_first : header_append_complete (header_append_value header_new (codes "x")) ≡ none
unfolding header_append_complete header_append_value header_new
value_first = refl

abbrev one_pair : Header
one_pair = header_add_pair header_new (codes "Host") (codes "a.b")

lookup_case : header_value one_pair (codes "hOST") ≡ some (codes "a.b")
unfolding header_value header_add_pair header_new str_case_eq c_str
lookup_case = refl

header_value-header_add_pair_example :
    header_value one_pair (codes "host") ≡ elim (header_value header_new (codes "host")) [
      | some v ↦ some v
      | none ↦
          if str_case_eq (c_str (codes "Host")) (codes "host")
          then some (c_str (codes "a.b"))
          else none
    ]
header_value-header_add_pair_example =
    header_value-header_add_pair header_new (codes "Host") (codes "a.b") (codes "host")

header_value-case_example :
    header_value one_pair (codes "HOST") ≡ header_value one_pair (codes "host")
unfolding str_case_eq
header_value-case_example = header_value-case one_pair (codes "HOST") (codes "host") refl

abbrev with_url : Header
with_url = record header_new {
  url = some (codes "/x");
  list_headers = record { field = codes "Host"; value = codes "a.b" } ∷ [];
}

header_to_str-render_example :
    header_to_str with_url 4096 ≡ request_line with_url ++ render with_url.list_headers
unfolding header_new field_line
header_to_str-render_example = header_to_str-render with_url 4096 (omega arith) (omega arith)

header_to_str_run : header_to_str with_url 4096 ≡ codes "GET /x HTTP/1.1\r\nHost: a.b\r\n"
unfolding header_to_str header_new
header_to_str_run = refl

header_fields_overflow_example : (header_fields one_pair).0 < 16
unfolding header_add_pair header_fields header_new c_str
header_fields_overflow_example =
    header_fields_overflow one_pair (codes "Host" ∷ codes "a.b" ∷ []) (omega arith) (λ e. cc) refl
