-- ===== src/Header/Fields.antt =====
-- header.c: the array that `header_fields` allocates, against what it stores there.
use h2_client_proxy.Base.{
  ◌*◌, ◌≤◌, ◌<◌, Option, none, some, List, [], ◌∷◌, ◌≡◌, ◌≢◌, arith, length, length-append, Bytes,
}
use h2_client_proxy.Header.{
  Header, Field, header_new, header_add_pair, header_append_complete, append_entry, header_fields,
  pointers,
}

-- `field_count` does not exceed the number of fields: `header_append_complete` does not count.
abbrev pub IsCounted : Header → Type 0
IsCounted h = h.field_count ≤ length h.list_headers

pub header_new-IsCounted : IsCounted header_new
unfolding header_new
header_new-IsCounted = omega arith

pub header_add_pair-IsCounted :
    (h : Header) (field value : Bytes) → IsCounted h → IsCounted (header_add_pair h field value)
unfolding header_add_pair
header_add_pair-IsCounted h field value c = omega (arith, length-append {0} h.list_headers _)

append_entry-IsCounted :
    (h g : Header) (f v : Option Bytes) → IsCounted h → append_entry h f v ≡ some g → IsCounted g
unfolding append_entry
append_entry-IsCounted h g (some f) (some v) c e =
    ground (arith, length-append h.list_headers (record { field = f; value = v } ∷ []))
append_entry-IsCounted h g (some f) none c e = cc
append_entry-IsCounted h g none v c e = cc

pub header_append_complete-IsCounted :
    (h g : Header) → IsCounted h → header_append_complete h ≡ some g → IsCounted g
unfolding header_append_complete
header_append_complete-IsCounted h g c e =
    ground (arith, append_entry-IsCounted h g h.last_field h.last_value)

length-pointers : (fs : List Field) → length (pointers fs) ≡ 2 * length fs
unfolding pointers
length-pointers [] = omega arith
length-pointers (f ∷ fs) = omega (arith, length-pointers fs)

-- On a header with at least one field, whose `field_count` is at most the number of fields, the
-- array that `header_fields` allocates is smaller than the pointers, of eight bytes each, that
-- it stores there: it writes past the end.
pub header_fields_overflow :
    (h : Header) (stored : List Bytes)
    → IsCounted h
    → h.list_headers ≢ []
    → (header_fields h).1.headers ≡ some stored
    → (header_fields h).0 < 8 * length stored
unfolding header_fields
header_fields_overflow h stored c ne e = ground (arith, length-pointers h.list_headers)
