-- ===== src/Client/Tests.antt =====
-- Runs of the functions of client.c on small clients and headers.
use h2_client_proxy.Base.{
  ◌≡◌, ◌⊎◌, ◌++◌, ℕ, refl, some, none, [], ◌∷◌, arith, true, false, codes, c_str, str_case_eq,
  Bytes,
}
use h2_client_proxy.Base.Int.{negsuc}
use h2_client_proxy.Util.{get_status_string}
use h2_client_proxy.Header.{field_line, Header, header_new, header_value}
use h2_client_proxy.Header.Reassembly.{Pair, pieces}
use h2_client_proxy.Header.Render.{render}
use h2_client_proxy.Ep.Types.{all_events, no_events}
use h2_client_proxy.Ep.Watch.{detect, get_detect}
use h2_client_proxy.EpBuffer.{EpBuffer}
use h2_client_proxy.RelayHttp2.Request.{UrlParser}
use h2_client_proxy.Client.Types.{
  Client, client_handle_fd, relay_create, relay_write_body, relay_complete_request,
}
use h2_client_proxy.Client.Output.{SendResult, taken, client_write, client_writecb, drain}
use h2_client_proxy.Client.Output.Stream.{IsCounted, stream, client_write-Wrote}
use h2_client_proxy.Client.Output.Drain.{client_writecb-stream, client_writecb_crashes}
use h2_client_proxy.Client.Response.{
  has_value, header_get_host_port, is_chunked, chunk_line, client_handle_relay_body,
  client_handle_relay_hdr_complete, client_handle_relay_msg_complete, header_get_host,
}
use h2_client_proxy.Client.Response.Text.{
  body_text, chunk_line-hex_value, hex_value, client_handle_relay_body-stream,
}
use h2_client_proxy.Client.Response.Complete.{
  end_text, client_handle_relay_hdr_complete-stream, client_handle_relay_msg_complete-next,
  status_line,
}
use h2_client_proxy.RelayHttp2.Types.{status_request_sent}
use h2_client_proxy.Client.Request.{
  body_part, msg_begin, url_complete, headers_complete, message_complete, parser_calls,
}
use h2_client_proxy.Client.Request.Pipeline.{next_body_misdirected}
use h2_client_proxy.Client.Request.Reading.{first_request_creates_relay, piece_calls, request_of}

abbrev first : EpBuffer
first = record { buf = 1 ∷ 2 ∷ 3 ∷ []; len_total = 3; len_sent = 1 }

-- A client that waits for the answer of the relay 7, with two bytes to send.
abbrev busy : Client
busy = record {
  file = record { mask = all_events; is_registered = true; timeout = negsuc 0 };
  relay = some 7;
  request_header = some header_new;
  pending_request_header = none;
  list_response_write_buffer = first ∷ [];
  list_request_body_buffer = [];
  pending_write = 2;
  sent = 1 ∷ [];
  calls = [];
  is_dropped = false;
}

busy-IsCounted : IsCounted busy
busy-IsCounted = record { live = (record { total = refl; left = omega arith }, tt); counted = refl }

client_write-Wrote_example :
    stream (client_write (4 ∷ 5 ∷ []) (taken 1) busy) ≡ 1 ∷ 2 ∷ 3 ∷ 4 ∷ 5 ∷ []
client_write-Wrote_example =
    (client_write-Wrote (4 ∷ 5 ∷ []) (taken 1) busy (λ e. cc) (λ e. cc) busy-IsCounted).stream_is

-- Each call of `send` takes one byte.
abbrev one_byte : ℕ → SendResult
one_byte k = taken 1

client_writecb-stream_example :
    (c' : Client) × (client_writecb one_byte busy ≡ some c')
    × (((drain one_byte 0 (first ∷ [])).is_error ≡ true) × (c'.is_dropped ≡ true)
        ⊎ ((stream c' ≡ 1 ∷ 2 ∷ 3 ∷ []) × IsCounted c'))
unfolding get_detect
client_writecb-stream_example =
    client_writecb-stream one_byte busy 7 (λ k e. cc) refl refl busy-IsCounted

-- The response of a client was complete before all of it was sent.
client_writecb_crashes_example : client_writecb one_byte (record busy { relay = none }) ≡ none
unfolding drain
client_writecb_crashes_example =
    client_writecb_crashes one_byte (record busy { relay = none }) refl (omega arith) refl

chunk_line-hex_value_example :
    (digits : Bytes) × (chunk_line 4096 ≡ digits ++ codes "\r\n") × (hex_value 0 digits ≡ 4096)
chunk_line-hex_value_example = chunk_line-hex_value 4096 (omega arith)

line_4096 : chunk_line 4096 ≡ codes "1000\r\n"
unfolding chunk_line
line_4096 = refl

abbrev chunked : Header
chunked = record header_new {
  list_headers = record { field = codes "Transfer-Encoding"; value = codes "chunked" } ∷ [];
  status_code = 200;
}

client_handle_relay_body-stream_example :
    (c' : Client) × (client_handle_relay_body chunked (9 ∷ 8 ∷ []) one_byte busy ≡ some c')
    × (stream c' ≡ (1 ∷ 2 ∷ 3 ∷ []) ++ body_text chunked (9 ∷ 8 ∷ []))
client_handle_relay_body-stream_example =
    let w =
      client_handle_relay_body-stream chunked (9 ∷ 8 ∷ []) one_byte busy 7 (λ e. cc) (λ k e. cc)
        refl busy-IsCounted in
    (w.0, w.1, w.2)

-- The bytes of a chunk, written out.
chunk_text : body_text chunked (9 ∷ 8 ∷ []) ≡ 50 ∷ 13 ∷ 10 ∷ 9 ∷ 8 ∷ 13 ∷ 10 ∷ []
unfolding is_chunked header_new str_case_eq c_str chunk_line header_value
chunk_text = refl

client_handle_relay_hdr_complete-stream_example :
    (c' : Client) × (client_handle_relay_hdr_complete chunked (taken 3) busy ≡ some c')
    × (stream c'
        ≡ (1 ∷ 2 ∷ 3 ∷ [])
          ++ (status_line (codes "200 OK") ++ (render chunked.list_headers ++ codes "\r\n")))
unfolding get_status_string header_new field_line render
client_handle_relay_hdr_complete-stream_example =
    let w =
      client_handle_relay_hdr_complete-stream chunked (taken 3) busy (codes "200 OK") refl (λ e. cc)
        (omega arith, omega arith) ((omega arith, omega arith), tt) (omega arith) (λ e. cc)
        busy-IsCounted in
    (w.0, w.1, w.2)

-- A parser that finds the host in the first three bytes and no port.
abbrev parse_url : UrlParser
parse_url url connect = record {
  schema = none;
  host = some (record { off = 0; len = 3 });
  port_text = none;
  path = none;
  query = none;
  fragment = none;
  port = 0;
}

-- The client with a next request.
abbrev next_header : Header
next_header = record header_new { url = some (codes "a.b/") }

client_handle_relay_msg_complete-next_example :
    (c' : Client) × (client_handle_relay_msg_complete parse_url 8 chunked
        (taken 5)
        (record busy { pending_request_header = some next_header })
      ≡ some c')
    × (stream c' ≡ (1 ∷ 2 ∷ 3 ∷ []) ++ end_text chunked)
    × (c'.relay ≡ some 8)
    × (c'.request_header ≡ some next_header)
    × (c'.pending_request_header ≡ none)
    × (c'.calls ≡ relay_create (codes "a.b") 80 ∷ [])
unfolding header_get_host header_get_host_port header_value header_new str_case_eq c_str has_value
client_handle_relay_msg_complete-next_example =
    client_handle_relay_msg_complete-next parse_url 8 chunked next_header (codes "a.b") 80 (taken 5)
      (record busy { pending_request_header = some next_header }) refl refl refl refl (λ e. cc)
      (record { live = busy-IsCounted.live; counted = refl })

abbrev host : Pair
host = record {
  first_field = codes "Ho";
  more_field = codes "st" ∷ [];
  first_value = codes "a.b";
  more_value = [];
}

-- The relay was sent its request, and the body comes in two parts.
next_body_misdirected_example :
    (c' : Client) × (parser_calls parse_url
        (msg_begin
          ∷ url_complete (codes "a.b/")
          ∷ piece_calls (pieces (host ∷ [])) (
              headers_complete 8 (codes "PUT")
              ∷ body_part status_request_sent (9 ∷ [])
              ∷ body_part status_request_sent (8 ∷ 7 ∷ [])
              ∷ message_complete
              ∷ []))
        busy
      ≡ some c')
    × (c'.calls
        ≡ relay_write_body (9 ∷ []) ∷ relay_write_body (8 ∷ 7 ∷ []) ∷ relay_complete_request ∷ [])
    × (c'.relay ≡ some 7)
    × (c'.pending_request_header
        ≡ some (request_of parse_url (codes "a.b/") (codes "PUT") (host ∷ [])))
next_body_misdirected_example =
    next_body_misdirected parse_url status_request_sent 7 8 (codes "a.b/") (codes "PUT") (host ∷ [])
      ((9 ∷ []) ∷ (8 ∷ 7 ∷ []) ∷ []) header_new busy (omega arith) refl refl refl

first_request_creates_relay_example :
    parser_calls parse_url
      (msg_begin
        ∷ url_complete (codes "a.b/")
        ∷ piece_calls (pieces (host ∷ [])) (headers_complete 8 (codes "GET") ∷ []))
      client_handle_fd
    ≡ some (record client_handle_fd {
      file = detect no_events (negsuc 0) client_handle_fd.file;
      relay = some 8;
      request_header = some (request_of parse_url (codes "a.b/") (codes "GET") (host ∷ []));
      calls = relay_create (codes "a.b") 80 ∷ [];
    })
unfolding header_get_host header_get_host_port header_new str_case_eq c_str
first_request_creates_relay_example =
    first_request_creates_relay parse_url 8 80 (codes "a.b/") (codes "GET") (codes "a.b")
      (host ∷ []) (omega arith) refl refl
