-- ===== src/Util.antt =====
-- util.c: the formatted append to a text buffer and the table of status lines.
mod Tests
pub mod Format
use h2_client_proxy.Base.{
  ℕ, ◌*◌, ◌-◌, ◌+◌, ◌==◌, Bool, true, false, List, [], ◌∷◌, ◌++◌, if◌then◌else◌, take, Bytes, codes,
}

-- `sizeof(tmp_buf)`
abbrev pub tmp_buf_size : ℕ
tmp_buf_size = 4096 * 20

-- `append_format(buf, len, ...)` with the text that the format gives: `vsnprintf` keeps what fits
-- `tmp_buf` with its terminator, and `strncat` appends at most `len` bytes of that.
unfoldable pub append_format : Bytes → ℕ → Bytes → Bytes
append_format buf len text = buf ++ take len (take (tmp_buf_size - 1) text)

-- `upgrade ? "200 Connection established" : "200 OK"`
ok_line : Bool → Bytes
ok_line true = codes "200 Connection established"
ok_line false = codes "200 OK"

-- The cases of the switch of `get_status_string`.
unfoldable pub status_table : Bool → List (ℕ × Bytes)
unfolding ok_line
status_table upgrade =
    (100, codes "100 Continue")
    ∷ (101, codes "101 Switching Protocols")
    ∷ (200, ok_line upgrade)
    ∷ (201, codes "201 Created")
    ∷ (202, codes "202 Accepted")
    ∷ (203, codes "203 Non-Authoritative Information")
    ∷ (204, codes "204 No Content")
    ∷ (205, codes "205 Reset Content")
    ∷ (206, codes "206 Partial Content")
    ∷ (300, codes "300 Multiple Choices")
    ∷ (301, codes "301 Moved Permanently")
    ∷ (302, codes "302 Found")
    ∷ (303, codes "303 See Other")
    ∷ (304, codes "304 Not Modified")
    ∷ (305, codes "305 Use Proxy")
    ∷ (306, codes "306 (Unused)")
    ∷ (307, codes "307 Temporary Redirect")
    ∷ (400, codes "400 Bad Request")
    ∷ (401, codes "401 Unauthorized")
    ∷ (402, codes "402 Payment Required")
    ∷ (403, codes "403 Forbidden")
    ∷ (404, codes "404 Not Found")
    ∷ (405, codes "405 Method Not Allowed")
    ∷ (406, codes "406 Not Acceptable")
    ∷ (407, codes "407 Proxy Authentication Required")
    ∷ (408, codes "408 Request Timeout")
    ∷ (409, codes "409 Conflict")
    ∷ (410, codes "410 Gone")
    ∷ (411, codes "411 Length Required")
    ∷ (412, codes "412 Precondition Failed")
    ∷ (413, codes "413 Request Entity Too Large")
    ∷ (414, codes "414 Request-URI Too Long")
    ∷ (415, codes "415 Unsupported Media Type")
    ∷ (416, codes "416 Requested Range Not Satisfiable")
    ∷ (417, codes "417 Expectation Failed")
    ∷ (425, codes "425 Bad Host")
    ∷ (500, codes "500 Internal Server Error")
    ∷ (501, codes "501 Not Implemented")
    ∷ (502, codes "502 Bad Gateway")
    ∷ (503, codes "503 Service Unavailable")
    ∷ (504, codes "504 Gateway Timeout")
    ∷ (505, codes "505 HTTP Version Not Supported")
    ∷ []

find_status : ℕ → List (ℕ × Bytes) → Bytes
find_status code [] = []
find_status code ((n, line) ∷ rest) = if code == n then line else find_status code rest

unfoldable pub get_status_string : ℕ → Bool → Bytes
unfolding find_status status_table
get_status_string code upgrade = find_status code (status_table upgrade)
