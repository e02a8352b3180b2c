-- ===== src/Header.antt =====
-- header.h and header.c: the header of a request or a response, filled by the callbacks of the
-- HTTP parser. A `char*` that may be NULL is an `Option`; a C string is its bytes without the
-- terminator, so a callback's buffer `(data, len)` is the list of its `len` bytes.
-- A failed `assert` is `none`. Children: `Reassembly`, `Lookup`, `Render`, `Fields`.
mod Tests
pub mod Reassembly
pub mod Lookup
pub mod Render
pub mod Fields
use h2_client_proxy.Base.{
  ℕ, ◌+◌, ◌*◌, Bool, true, false, Option, none, some, List, [], ◌∷◌, ◌++◌, if◌then◌else◌, length,
  take, Bytes, codes, c_str, str_case_eq,
}
use h2_client_proxy.Util.{append_format}

pub record Field : Type 0 where
  pub field : Bytes
  pub value : Bytes

pub record Header : Type 0 where
  pub method : Bytes
  pub version : Bytes
  pub url : Option Bytes
  pub last_field : Option Bytes
  pub last_value : Option Bytes
  pub is_last_value : Bool
  pub list_headers : List Field
  pub headers : Option (List Bytes)
  pub header_changed : Bool
  pub status_code : ℕ
  pub field_count : ℕ
  pub is_upgrade : Bool

-- `calloc` and an empty list; the type is not looked at.
unfoldable pub header_new : Header
header_new = record {
  method = [];
  version = [];
  url = none;
  last_field = none;
  last_value = none;
  is_last_value = false;
  list_headers = [];
  headers = none;
  header_changed = false;
  status_code = 0;
  field_count = 0;
  is_upgrade = false;
}

-- The loop of `header_value`.
unfoldable pub find_value : List Field → Bytes → Option Bytes
find_value [] field = none
find_value (pos ∷ rest) field =
    if str_case_eq pos.field field then some pos.value else find_value rest field

unfoldable pub header_value : Header → Bytes → Option Bytes
unfolding find_value
header_value header field = find_value header.list_headers field

unfoldable pub header_set_status_code : Header → ℕ → Header
header_set_status_code header code = record header { status_code = code }

-- `strncpy` into `char method[10]`.
unfoldable pub header_set_method : Header → Bytes → Header
header_set_method header method = record header { method = take 10 (c_str method) }

-- `strncpy` into `char version[4]`.
unfoldable pub headr_set_version : Header → Bytes → Header
headr_set_version header version = record header { version = take 4 (c_str version) }

-- `strndup(url, len)` ends at a 0 byte.
unfoldable pub header_set_url : Header → Bytes → Header
header_set_url header url = record header { url = some (c_str url) }

unfoldable pub header_add_pair : Header → Bytes → Bytes → Header
header_add_pair header field value = record header {
  list_headers = header.list_headers ++ record { field = c_str field; value = c_str value } ∷ [];
  field_count = header.field_count + 1;
}

-- `last_field` and `last_value` are handed over to the new entry.
append_entry : Header → Option Bytes → Option Bytes → Option Header
append_entry header (some f) (some v) = some (record header {
  last_field = none;
  last_value = none;
  is_last_value = false;
  list_headers = header.list_headers ++ record { field = f; value = v } ∷ [];
})
append_entry header _ _ = none

unfoldable pub header_append_complete : Header → Option Header
unfolding append_entry
header_append_complete header =
    if header.is_last_value
    then append_entry header header.last_field header.last_value
    else some header

-- `strndup` of the first piece; `calloc`, `strncpy` and `memcpy` behind the string so far.
append_piece : Option Bytes → Bytes → Bytes
append_piece none piece = c_str piece
append_piece (some old) piece = c_str (old ++ piece)

extend_field : Bytes → Header → Header
unfolding append_piece
extend_field piece header = record header {
  last_field = some (append_piece header.last_field piece);
  is_last_value = false;
}

unfoldable pub header_append_field : Header → Bytes → Option Header
unfolding extend_field header_append_complete
header_append_field header piece =
    elim (if header.is_last_value then header_append_complete header else some header) [
      | none ↦ none
      | some h ↦ some (extend_field piece h)
    ]

unfoldable pub header_append_value : Header → Bytes → Header
unfolding append_piece
header_append_value header piece = record header {
  last_value = some (append_piece header.last_value piece);
  is_last_value = true;
}

-- "%s: %s\r\n"
unfoldable pub field_line : Field → Bytes
field_line f = f.field ++ (codes ": " ++ (f.value ++ codes "\r\n"))

unfoldable pub append_fields : Bytes → ℕ → List Field → Bytes
unfolding append_format field_line
append_fields buf len [] = buf
append_fields buf len (pos ∷ rest) = append_fields (append_format buf len (field_line pos)) len rest

-- A NULL url prints as "(null)".
abbrev pub url_text : Option Bytes → Bytes
url_text none = codes "(null)"
url_text (some url) = url

unfoldable pub header_to_str : Header → ℕ → Bytes
unfolding append_fields append_format
header_to_str header len =
    append_fields
      (append_format [] len (codes "GET " ++ (url_text header.url ++ codes " HTTP/1.1\r\n"))) len
      header.list_headers

-- The pointers that the loop of `header_fields` stores.
pointers : List Field → List Bytes
pointers [] = []
pointers (pos ∷ rest) = pos.field ∷ pos.value ∷ pointers rest

-- The size in bytes of the array that `header_fields` allocates, and the header after it.
unfoldable pub header_fields : Header → ℕ × Header
unfolding pointers
header_fields header = (
  header.field_count * 2 + 1,
  record header { headers = some (pointers header.list_headers); header_changed = false },
)
