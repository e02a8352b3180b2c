-- ===== src/Client/Response.antt =====
-- client.c: what the client does on the events of its relay. The relay's response header and body,
-- which it reads through `relay_sys`, are arguments, and so is the parser of URLs. A host that does
-- not fit the 255 bytes that it is copied into is not modelled.
pub mod Text
pub mod Complete
use h2_client_proxy.Base.{
  ◌*◌, ℕ, zero, suc, ◌+◌, ◌-◌, ◌/◌, ◌%◌, ◌==◌, Bool, true, false, Option, none, some, List, [], ◌∷◌,
  ◌++◌, ltb, if◌then◌else◌, length, Bytes, codes, str_case_eq,
}
use h2_client_proxy.Base.Int.{ℤ, negsuc}
use h2_client_proxy.Util.{append_format, get_status_string}
use h2_client_proxy.Header.{Header, Field, header_value, append_fields}
use h2_client_proxy.Ep.Types.{ep_read}
use h2_client_proxy.Ep.Watch.{detect}
use h2_client_proxy.EpBuffer.{EpBuffer}
use h2_client_proxy.RelayHttp2.Types.{RelayEvent}
use h2_client_proxy.RelayHttp2.Request.{ParsedUrl, UrlParser, url_part, is_method}
use h2_client_proxy.Client.Types.{
  Client, RelayCall, record_call, call_relay, client_drop, relay_create, relay_send_request,
  relay_write_body, relay_suspend_read,
}
use h2_client_proxy.Client.Output.{SendResult, client_write, write_limit}

-- Every buffered piece of the request body goes to the relay.
unfoldable pub write_bodies : List EpBuffer → Client → Client
write_bodies [] c = c
write_bodies (b ∷ rest) c = write_bodies rest (record_call (relay_write_body b.buf) c)

-- The assertion is that there is a relay.
unfoldable pub client_handle_relay_connected : Client → Option Client
unfolding write_bodies
client_handle_relay_connected c = elim c.relay [
  | none ↦ none
  | some _ ↦
      let c1 = record c { file = detect ep_read (negsuc 0) c.file } in
      let c2 = record_call (relay_send_request c.request_header) c1 in
      some (record (write_bodies c.list_request_body_buffer c2) { list_request_body_buffer = [] })
]

-- `sizeof(buf)`
abbrev pub response_size : ℕ
response_size = 50 * 4096

-- The text of the response header.
unfoldable pub response_text : Bytes → Header → Bytes
response_text status_str h =
    append_fields
      (append_format [] response_size (codes "HTTP/1.1 " ++ (status_str ++ codes "\r\n")))
      response_size h.list_headers
    ++ codes "\r\n"

-- The assertion is that the status has a line. A text that overruns the array, or that has no room
-- for its 0 byte, is a crash.
unfoldable pub client_handle_relay_hdr_complete : Header → SendResult → Client → Option Client
client_handle_relay_hdr_complete h r c = elim (get_status_string h.status_code false) [
  | [] ↦ none
  | s ∷ ss ↦
      let text = response_text (s ∷ ss) h in
      let written : Option Client = some (client_write text r c) in
      if ltb (length text) response_size then written else none
]

-- A hexadecimal digit of `%X`.
unfoldable pub hex_digit : ℕ → ℕ
hex_digit d = if ltb d 10 then d + b'0' else d - 10 + b'A'

-- `%X`, with as many rounds as there can be digits.
unfoldable pub hex : ℕ → ℕ → Bytes → Bytes
unfolding hex_digit
hex zero n out = out
hex (suc rounds) n out =
    let more = hex rounds (n / 16) (hex_digit (n % 16) ∷ out) in
    if ltb n 16 then hex_digit n ∷ out else more

-- The line of a chunk's length: an int has at most eight digits.
unfoldable pub chunk_line : ℕ → Bytes
unfolding hex
chunk_line n = hex 8 n [] ++ codes "\r\n"

is_chunked_text : Option Bytes → Bool
is_chunked_text none = false
is_chunked_text (some v) = str_case_eq v (codes "chunked")

unfoldable pub is_chunked : Header → Bool
unfolding is_chunked_text
is_chunked h = is_chunked_text (header_value h (codes "Transfer-Encoding"))

-- The three writes of a chunk, or the one of a body that is not chunked; `sends` are the results of
-- `send`. Then reading is suspended if too much is left to send.
unfoldable pub write_body : Header → Bytes → (ℕ → SendResult) → Client → Client
write_body h bytes sends c =
    if is_chunked h
    then client_write (codes "\r\n") (sends 2)
        (client_write bytes (sends 1) (client_write (chunk_line (length bytes)) (sends 0) c))
    else client_write bytes (sends 1) c

unfoldable pub client_handle_relay_body : Header → Bytes → (ℕ → SendResult) → Client → Option Client
unfolding write_body
client_handle_relay_body h bytes sends c =
    let c' = write_body h bytes sends c in
    if ltb write_limit c'.pending_write then call_relay relay_suspend_read c' else some c'

unfoldable pub has_value : Option Bytes → Bool
has_value none = false
has_value (some v) = true

module _ (parse_url : UrlParser) where
  parsed : Header → Bytes → ParsedUrl
  parsed h url = parse_url url (is_method h (codes "connect"))

  -- A NULL url is a crash.
  unfoldable pub header_get_host : Header → Option Bytes
  unfolding parsed
  header_get_host h = elim h.url [
    | none ↦ none
    | some url ↦ some (url_part url (parsed h url).host)
  ]

  unfoldable pub header_get_host_port : Header → Option ℕ
  unfolding parsed
  header_get_host_port h = elim h.url [
    | none ↦ none
    | some url ↦ let u = parsed h url in some (elim u.port_text [ none ↦ 80 | some _ ↦ u.port ])
  ]

  -- `relay_create` for a request; the new relay has the address `id`.
  unfoldable pub create_relay : ℕ → Header → Client → Option Client
  unfolding header_get_host header_get_host_port
  create_relay id h c = elim (header_get_host h) [
    | none ↦ none
    | some host ↦ elim (header_get_host_port h) [
      | none ↦ none
      | some port ↦ some (record (record_call (relay_create host port) c) { relay = some id })
    ]
  ]

  -- The next request of the client, if one was read meanwhile.
  unfoldable pub next_request : ℕ → Client → Option Client
  next_request id c = elim c.pending_request_header [
    | none ↦ some (record c { request_header = none })
    | some h ↦
        create_relay id h (record c { request_header = some h; pending_request_header = none })
  ]

  unfoldable pub client_handle_relay_msg_complete : ℕ → Header → SendResult → Client → Option Client
  unfolding has_value next_request
  client_handle_relay_msg_complete id h r c =
      let c1 = if is_chunked h then client_write (codes "0\r\n\r\n") r c else c in
      let c2 = record c1 { relay = none } in
      if has_value (header_value h (codes "Transfer-Encoding"))
      then next_request id c2
      else if has_value (header_value h (codes "Content-Length"))
      then next_request id c2
      else some (client_drop c2)

  -- The relay's callback.
  unfoldable pub client_relay_cb :
      RelayEvent → ℕ → Header → Bytes → (ℕ → SendResult) → Client → Option Client
  client_relay_cb RelayEvent.connected id h bytes sends c = client_handle_relay_connected c
  client_relay_cb RelayEvent.header_complete id h bytes sends c =
      client_handle_relay_hdr_complete h (sends 0) c
  client_relay_cb RelayEvent.body id h bytes sends c = client_handle_relay_body h bytes sends c
  client_relay_cb RelayEvent.msg_complete id h bytes sends c =
      client_handle_relay_msg_complete id h (sends 0) c
  client_relay_cb RelayEvent.err_conn_failed id h bytes sends c =
      some (client_drop (record c { relay = none }))
  client_relay_cb RelayEvent.err_dns_failed id h bytes sends c =
      some (client_drop (record c { relay = none }))
  client_relay_cb RelayEvent.err_response_parse_failed id h bytes sends c = some c
  client_relay_cb RelayEvent.err_conn_terminate id h bytes sends c = some c
