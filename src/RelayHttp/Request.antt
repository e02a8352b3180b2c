-- ===== src/RelayHttp/Request.antt =====
-- relay_http.c: what a relay writes to the server, the request, its body and its end, and the flow
-- control by the client. The parser of URLs, http_parser.c, is the parameter `parse_url`.
pub mod Wire
pub mod Reuse
use h2_client_proxy.Base.{
  ◌*◌, ◌&&◌, ltb, ℕ, Bool, true, false, Option, none, some, List, [], ◌∷◌, ◌++◌, if◌then◌else◌,
  length, take, drop, Bytes, codes, c_str, str_case_eq,
}
use h2_client_proxy.Util.{append_format}
use h2_client_proxy.Header.{Header, Field, field_line, header_value}
use h2_client_proxy.Ep.Types.{ep_read}
use h2_client_proxy.Client.Response.{chunk_line}
use h2_client_proxy.RelayHttp2.Types.{status_connected, status_request_sent}
use h2_client_proxy.RelayHttp2.Request.{ParsedUrl, UrlParser, UrlPart, url_part}
use h2_client_proxy.RelayHttp.Types.{
  set_status, HttpRelay, Relays, emit, put, call_conn, conn_write, conn_enable, conn_disable,
  timer_add,
}

-- `sizeof(buf)`
abbrev pub buf_size : ℕ
buf_size = 20 * 1024

query_of : Bytes → Option UrlPart → Bytes
query_of url none = []
query_of url (some p) = codes "?" ++ url_part url (some p)

-- Without a bit in the field set the part of the fragment is empty.
fragment_of : Bytes → Option UrlPart → Bytes
fragment_of url none = []
fragment_of url (some p) = codes "#" ++ url_part url (some p)

-- `sizeof(url)`
abbrev pub url_size : ℕ
url_size = 1024

-- The text in `url`: from the path to the end of the URL, as much as the array holds.
unfoldable pub target_of : Bytes → ParsedUrl → Bytes
unfolding query_of fragment_of
target_of url u = elim u.path [
  | some p ↦ take url_size (drop p.off url)
  | none ↦ codes "/" ++ (query_of url u.query ++ fragment_of url u.fragment)
]

-- The name that goes to the server.
unfoldable pub sent_field : Field → Field
sent_field pos =
    if str_case_eq pos.field (codes "proxy-connection")
    then record { field = codes "Connection"; value = pos.value }
    else pos

unfoldable pub append_sent : Bytes → List Field → Bytes
unfolding sent_field
append_sent buf [] = buf
append_sent buf (pos ∷ rest) =
    append_sent (append_format buf buf_size (field_line (sent_field pos))) rest

abbrev pub first_line : Bytes → Bytes → Bytes
first_line method target = method ++ (codes " " ++ (target ++ codes " HTTP/1.1\r\n"))

unfoldable pub request_text : Header → Bytes → Bytes
unfolding append_sent
request_text h target =
    append_sent (append_format [] buf_size (first_line h.method target)) h.list_headers
    ++ codes "\r\n"

is_chunked_text : Option Bytes → Bool
is_chunked_text none = false
is_chunked_text (some v) = str_case_eq v (codes "chunked")

-- Whether the header of a request says that its body comes in chunks.
unfoldable pub is_chunked_request : Header → Bool
unfolding is_chunked_text
is_chunked_request h = is_chunked_text (header_value h (codes "Transfer-Encoding"))

-- The flag is set for a body in chunks, and not reset.
unfoldable pub start_request : Header → HttpRelay → HttpRelay
start_request h r = record r {
  request_header = some h;
  is_chunk_post = if is_chunked_request h then true else r.is_chunk_post;
}

-- The text goes to the connection, and the status says so.
unfoldable pub send_text : ℕ → Header → Bytes → Relays → Option Relays
unfolding start_request
send_text id h text w =
    elim (call_conn id (conn_write (c_str text)) (put id (start_request h (w.relay_at id)) w)) [
      | none ↦ none
      | some w' ↦ some (put id (set_status status_request_sent (w'.relay_at id)) w')
    ]

-- The target and the whole text have room in their arrays, with the 0 byte behind them.
unfoldable pub has_room : Bytes → Bytes → Bool
has_room target text = ltb (length target) url_size && ltb (length text) buf_size

-- For a CONNECT only a timer is set, which makes the response. A NULL url is a crash, and so is a
-- target or a text that overruns its array, or that has no room for its 0 byte.
module _ (parse_url : UrlParser) where
  unfoldable pub relay_send_request : ℕ → Header → Relays → Option Relays
  unfolding send_text has_room
  relay_send_request id h w =
      let connecting = put id (set_status status_connected (w.relay_at id)) (emit id timer_add w) in
      let sent : Option Relays = elim h.url [
        | none ↦ none
        | some url ↦
            let target = target_of url (parse_url url false) in
            let text = request_text h target in
            let result = send_text id h text w in if has_room target text then result else none
      ] in
      if str_case_eq h.method (codes "connect") then some connecting else sent

-- Two calls in a row.
abbrev pub and_then : (Relays → Option Relays) → Option Relays → Option Relays
and_then f w = elim w [ none ↦ none | some w' ↦ f w' ]

unfoldable pub relay_write_body : ℕ → Bytes → Relays → Option Relays
relay_write_body id bytes w =
    if (w.relay_at id).is_chunk_post
    then and_then (call_conn id (conn_write (codes "\r\n"))) (
        and_then (call_conn id (conn_write bytes))
          (call_conn id (conn_write (chunk_line (length bytes))) w))
    else call_conn id (conn_write bytes) w

unfoldable pub relay_complete_request : ℕ → Relays → Option Relays
relay_complete_request id w =
    if (w.relay_at id).is_chunk_post
    then call_conn id (conn_write (codes "0\r\n\r\n")) w
    else some w

unfoldable pub relay_suspend_read : ℕ → Relays → Option Relays
relay_suspend_read id w = call_conn id (conn_disable ep_read) w

unfoldable pub relay_resume_read : ℕ → Relays → Option Relays
relay_resume_read id w = call_conn id (conn_enable ep_read) w

unfoldable pub relay_get_status : ℕ → Relays → ℕ
relay_get_status id w = (w.relay_at id).relay_status

unfoldable pub relay_get_header : ℕ → Relays → Option Header
relay_get_header id w = (w.relay_at id).response_header

-- -1 is `none`.
unfoldable pub relay_get_body : ℕ → Relays → Option Bytes
relay_get_body id w = if (w.relay_at id).in_body_callback then (w.relay_at id).body else none
