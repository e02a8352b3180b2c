-- ===== src/RelaySys/Http/Written.antt =====
-- client.c over relay_http.c: what a client writes over HTTP/1.
use h2_client_proxy.Base.{
  same_some, ℕ, ◌≡◌, ap, ◌∙◌, true, false, some, List, ◌++◌, Bytes, codes, str_case_eq, map, length,
  ◌<◌,
}
use h2_client_proxy.Header.{Header}
use h2_client_proxy.Header.Render.{Fits, AllFit}
use h2_client_proxy.RelayHttp.Request.{buf_size, url_size, first_line, target_of, sent_field}
use h2_client_proxy.RelayHttp.Request.Reuse.{request_lines}
use h2_client_proxy.RelayHttp2.Request.{UrlParser}
use h2_client_proxy.RelayHttp.Types.{Relays}
use h2_client_proxy.RelayHttp.Request.Wire.{wire}
use h2_client_proxy.Client.Types.{Client, RelayCall}
use h2_client_proxy.Client.Response.{client_handle_relay_connected}
use h2_client_proxy.Client.Request.{parser_calls}
use h2_client_proxy.RelaySys.{perform_all}
use h2_client_proxy.RelaySys.Forward.{client_forwards}
use h2_client_proxy.RelaySys.Calls.{buffered, later, AllNonempty, AllConnected, rest_of_body}
use h2_client_proxy.RelaySys.Http.{http_relay_sys, http_relay_sys-laws, IsFresh, message_text}

-- A client over HTTP/1, if its table is http_relay_sys: its relay is connected and wrote nothing yet,
-- the request is no CONNECT, its target is below 1024 bytes, the first line and the line of each field
-- fit a call of `append_format` and are together with the empty line below 20480 bytes, and
-- the parts of its body, some of them buffered and some that come afterwards, are not empty. No
-- callback and no call of the relay is a crash, and what the relay wrote in the end is the first line,
-- a line for each field in order, with Proxy-Connection renamed to Connection, and the empty line, up
-- to the first 0 byte, all the parts in order, each as a chunk if the header says so, and then the last chunk.
pub forwards_over_http :
    (parse_url : UrlParser) (id : ℕ) (c : Client) (h : Header) (url : Bytes) (w : Relays)
    (ps : List (ℕ × Bytes))
    → c.relay ≡ some id
    → c.request_header ≡ some h
    → h.url ≡ some url
    → str_case_eq h.method (codes "connect") ≡ false
    → Fits buf_size (first_line h.method (target_of url (parse_url url false)))
    → AllFit buf_size (map sent_field h.list_headers)
    → length (target_of url (parse_url url false)) < url_size
    → length (request_lines h (target_of url (parse_url url false))) < buf_size
    → IsFresh id w
    → AllNonempty (buffered c.list_request_body_buffer)
    → AllNonempty (later ps)
    → AllConnected ps
    → (c1 : Client) × (c2 : Client) × (made : List RelayCall) × (w' : Relays)
      × (client_handle_relay_connected c ≡ some c1)
      × (parser_calls parse_url (rest_of_body ps) c1 ≡ some c2)
      × (c2.calls ≡ c.calls ++ made)
      × (perform_all (http_relay_sys parse_url id) made w ≡ some w')
      × (wire id w'.calls
          ≡ message_text parse_url id h url (buffered c.list_request_body_buffer ++ later ps) true)
forwards_over_http parse_url id c h url w ps relay header e plain line all target text fresh early
      late ready =
    let (c1, c2, made, w', run1, run2, calls, performed, told) =
      client_forwards (http_relay_sys parse_url id) (http_relay_sys-laws parse_url id) parse_url c
        id h w ps relay header
        (record {
          url = url;
          url_is = e;
          no_connect = plain;
          line_fits = line;
          all_fit = all;
          target_fits = target;
          text_fits = text;
        })
        fresh early late ready in
    let parts = buffered c.list_request_body_buffer ++ later ps in
    let same : told.url ≡ url = same_some told.url_is e in
    (
      c1,
      c2,
      made,
      w',
      run1,
      run2,
      calls,
      performed,
      told.on_wire ∙ ap (λ x. message_text parse_url id h x parts true) same,
    )
