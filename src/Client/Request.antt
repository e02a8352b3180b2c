-- ===== src/Client/Request.antt =====
-- client.c: the callbacks that the HTTP parser calls while it reads what the client sends, and the
-- event of the client's descriptor. The parser, http_parser.c, is a list of the callbacks that it
-- makes of the bytes received; a failed assertion and a crash are `none`.
pub mod Reading
pub mod Pipeline
use h2_client_proxy.Base.{
  ℕ, ◌&&◌, not, Bool, true, false, Option, none, some, List, [], ◌∷◌, ◌++◌, ltb, if◌then◌else◌,
  length, Bytes,
}
use h2_client_proxy.Base.Int.{ℤ, negsuc}
use h2_client_proxy.Header.{
  Header, header_new, header_set_url, header_set_method, header_append_field, header_append_value,
  header_append_complete,
}
use h2_client_proxy.Ep.Types.{Mask, no_events}
use h2_client_proxy.Ep.Watch.{detect}
use h2_client_proxy.EpBuffer.{EpBuffer, ep_buffer_create}
use h2_client_proxy.RelayHttp2.Types.{status_connected}
use h2_client_proxy.RelayHttp2.Request.{UrlParser}
use h2_client_proxy.Client.Types.{
  Client, call_relay, record_call, client_drop, relay_write_body, relay_complete_request,
}
use h2_client_proxy.Client.Output.{SendResult, client_writecb}
use h2_client_proxy.Client.Response.{create_relay}

-- With a relay the next request is a pending one, else it must be the first.
unfoldable pub client_msg_begin : Client → Option Client
client_msg_begin c = elim c.relay [
  | some _ ↦ elim c.request_header [
    | none ↦ none
    | some _ ↦ some (record c { pending_request_header = some header_new })
  ]
  | none ↦ elim c.request_header [
    | none ↦ some (record c { request_header = some header_new })
    | some _ ↦ none
  ]
]

-- The header that is being read is the pending one, if there is one. NULL is a crash.
unfoldable pub on_header : (Header → Option Header) → Client → Option Client
on_header f c = elim c.pending_request_header [
  | some h ↦ elim (f h) [
    | none ↦ none
    | some h' ↦ some (record c { pending_request_header = some h' })
  ]
  | none ↦ elim c.request_header [
    | none ↦ none
    | some h ↦ elim (f h) [ none ↦ none | some h' ↦ some (record c { request_header = some h' }) ]
  ]
]

unfoldable pub client_url_complete : Bytes → Client → Option Client
client_url_complete url = on_header (λ h. some (header_set_url h url))

unfoldable pub client_header_fieldcb : Bytes → Client → Option Client
client_header_fieldcb piece = on_header (λ h. header_append_field h piece)

unfoldable pub client_header_valuecb : Bytes → Client → Option Client
client_header_valuecb piece = on_header (λ h. some (header_append_value h piece))

-- What stands between two buffers: with the arguments of `list_add_tail` as they are, the client's
-- list head is put into the list of the new buffer, and the client's list is then this buffer alone.
unfoldable pub keep_body : EpBuffer → Client → Client
keep_body buf c = record c { list_request_body_buffer = buf ∷ [] }

-- `status` is what `relay_get_status` returns; NULL is a crash.
unfoldable pub client_bodycb : ℕ → Bytes → Client → Option Client
unfolding keep_body
client_bodycb status bytes c = elim c.relay [
  | none ↦ none
  | some _ ↦
      if ltb status status_connected
      then elim (ep_buffer_create bytes) [ none ↦ none | some buf ↦ some (keep_body buf c) ]
      else some (record_call (relay_write_body bytes) c)
]

unfoldable pub client_message_completecb : Client → Option Client
client_message_completecb c = call_relay relay_complete_request c

-- A callback of the parser, with the address of a relay made in it and the status of the relay.
pub data ParserCall : Type 0 where
  msg_begin message_complete : ParserCall
  url_complete header_field header_value : Bytes → ParserCall
  headers_complete : ℕ → Bytes → ParserCall
  body_part : ℕ → Bytes → ParserCall

module _ (parse_url : UrlParser) where
  -- Reading stops, and the relay of the first request is made, with the address `id`.
  unfoldable pub start_request : ℕ → Client → Option Client
  start_request id c =
      let c' = record c { file = detect no_events (negsuc 0) c.file } in
      elim c.pending_request_header [
        | some _ ↦ some c'
        | none ↦ elim c.request_header [ none ↦ none | some h ↦ create_relay parse_url id h c' ]
      ]

  unfoldable pub client_headers_completecb : ℕ → Bytes → Client → Option Client
  unfolding start_request
  client_headers_completecb id method c =
      elim (on_header (λ h. header_append_complete (header_set_method h method)) c) [
        | none ↦ none
        | some c' ↦ start_request id c'
      ]

  unfoldable pub parser_call : ParserCall → Client → Option Client
  parser_call msg_begin c = client_msg_begin c
  parser_call message_complete c = client_message_completecb c
  parser_call (url_complete url) c = client_url_complete url c
  parser_call (header_field s) c = client_header_fieldcb s c
  parser_call (header_value s) c = client_header_valuecb s c
  parser_call (headers_complete id method) c = client_headers_completecb id method c
  parser_call (body_part status bytes) c = client_bodycb status bytes c

  -- `http_parser_execute_`, which makes these calls.
  unfoldable pub parser_calls : List ParserCall → Client → Option Client
  parser_calls [] c = some c
  parser_calls (p ∷ ps) c = elim (parser_call p c) [ none ↦ none | some c' ↦ parser_calls ps c' ]

  -- `calls` is what the parser makes of the bytes received, none if `recv` returns 0 or -1.
  unfoldable pub client_readcb : Option (List ParserCall) → Client → Option Client
  client_readcb none c = some (client_drop c)
  client_readcb (some calls) c = parser_calls calls c

  -- The events of the descriptor: reading alone, an error, or writing.
  unfoldable pub client_eventcb :
      Mask → Bool → Option (List ParserCall) → (ℕ → SendResult) → Client → Option Client
  client_eventcb what error calls sends c =
      if what.read && (not what.write && not error)
      then client_readcb calls c
      else if error
      then some (client_drop c)
      else if what.write
      then client_writecb sends c
      else some c
