-- ===== src/RelaySys/Tests.antt =====
-- A client that passes a request on, over each of the two tables.
use h2_client_proxy.Base.{
  ℕ, ◌≡◌, refl, arith, some, none, true, false, List, [], ◌∷◌, ◌++◌, Bytes, codes, str_case_eq,
}
use h2_client_proxy.Header.{Header, header_new, header_value, field_line}
use h2_client_proxy.RelayHttp2.Types.{World}
use h2_client_proxy.RelayHttp2.Request.{
  UrlParser, fits_arrays, request_path, request_authority, request_nvs, field_nvs, is_skipped,
}
use h2_client_proxy.RelayHttp2.Lifecycle.{relay_create}
use h2_client_proxy.RelayHttp.Types.{Relays}
use h2_client_proxy.RelayHttp.Request.{target_of, sent_field}
use h2_client_proxy.Header.Render.{render}
use h2_client_proxy.RelayHttp.Pool.{new_relay}
use h2_client_proxy.Client.Types.{
  Client, RelayCall, client_handle_fd, relay_complete_request, relay_send_request, relay_write_body,
}
use h2_client_proxy.Client.Response.{client_handle_relay_connected}
use h2_client_proxy.Client.Request.{parser_calls}
use h2_client_proxy.RelayHttp.Request.Wire.{wire}
use h2_client_proxy.RelaySys.{perform_all}
use h2_client_proxy.RelaySys.Forward.{client_forwards}
use h2_client_proxy.RelaySys.Calls.{rest_of_body}
use h2_client_proxy.RelaySys.Http.{http_relay_sys, message_text}
use h2_client_proxy.RelaySys.Kept.{early_bodies_lost}
use h2_client_proxy.RelaySys.Http.Written.{forwards_over_http}
use h2_client_proxy.RelaySys.Http2.{http2_relay_sys, http2_relay_sys-laws, Passes, submitted}

-- A chunked request of a client whose relay is 7, with one part of the body buffered.
abbrev posted : Header
posted = record header_new {
  method = codes "POST";
  url = some (codes "http://a.b/c");
  list_headers = record { field = codes "Transfer-Encoding"; value = codes "chunked" } ∷ [];
}

abbrev waiting : Client
waiting = record client_handle_fd {
  relay = some 7;
  request_header = some posted;
  list_request_body_buffer = record { buf = 1 ∷ []; len_total = 1; len_sent = 0 } ∷ [];
}

-- The parts that come when the relay is connected, and when it has sent the request.
abbrev parts : List (ℕ × Bytes)
parts = (1, 2 ∷ 3 ∷ []) ∷ (2, 4 ∷ []) ∷ []

abbrev no_parts : UrlParser
no_parts url is_connect = record {
  schema = none;
  host = none;
  port_text = none;
  path = none;
  query = none;
  fragment = none;
  port = 0;
}

abbrev connected : Relays
connected = record {
  relay_at =
      λ i. record (new_relay (codes "a.b") 80) { conn = true; dns_req = false; connected = true };
  idle = λ i. [];
  calls = [];
}

client_forwards_example :
    (c1 : Client) × (c2 : Client) × (made : List RelayCall) × (w : World)
    × (client_handle_relay_connected waiting ≡ some c1)
    × (parser_calls no_parts (rest_of_body parts) c1 ≡ some c2)
    × (c2.calls ≡ [] ++ made)
    × (perform_all (http2_relay_sys no_parts 3 0) made (relay_create true) ≡ some w)
    × Passes no_parts 3 0 posted ((1 ∷ []) ∷ (2 ∷ 3 ∷ []) ∷ (4 ∷ []) ∷ []) true w
unfolding client_handle_fd header_new relay_create submitted fits_arrays request_path
    request_authority header_value str_case_eq request_nvs field_nvs is_skipped
client_forwards_example =
    client_forwards (http2_relay_sys no_parts 3 0) (http2_relay_sys-laws no_parts 3 0) no_parts
      waiting 7 posted (relay_create true) parts refl refl
      (record { url = codes "http://a.b/c"; url_is = refl; room = refl })
      (record { session = refl; no_body = refl; end = refl; no_request = refl }) ((λ e. cc), tt)
      ((λ e. cc), ((λ e. cc), tt)) (omega arith, (omega arith, tt))

forwards_over_http_example :
    (c1 : Client) × (c2 : Client) × (made : List RelayCall) × (w : Relays)
    × (client_handle_relay_connected waiting ≡ some c1)
    × (parser_calls no_parts (rest_of_body parts) c1 ≡ some c2)
    × (c2.calls ≡ [] ++ made)
    × (perform_all (http_relay_sys no_parts 7) made connected ≡ some w)
    × (wire 7 w.calls
        ≡ message_text no_parts 7 posted
            (codes "http://a.b/c")
            ((1 ∷ []) ∷ (2 ∷ 3 ∷ []) ∷ (4 ∷ []) ∷ [])
            true)
unfolding client_handle_fd header_new new_relay str_case_eq wire target_of sent_field field_line
    render
forwards_over_http_example =
    forwards_over_http no_parts 7 waiting posted (codes "http://a.b/c") connected parts refl refl
      refl refl (omega arith, omega arith) ((omega arith, omega arith), tt) (omega arith)
      (omega arith) (record { up = refl; no_chunks = refl; no_bytes = refl }) ((λ e. cc), tt)
      ((λ e. cc), ((λ e. cc), tt)) (omega arith, (omega arith, tt))

-- Both parts come before the relay is connected.
abbrev early_parts : List (ℕ × Bytes)
early_parts = (0, 1 ∷ []) ∷ (0, 2 ∷ 3 ∷ []) ∷ []

abbrev reading : Client
reading = record client_handle_fd { relay = some 7; request_header = some posted }

early_bodies_lost_example :
    (c1 : Client) × (c2 : Client) × (parser_calls no_parts (rest_of_body early_parts) reading
      ≡ some c1)
    × (client_handle_relay_connected c1 ≡ some c2)
    × (c2.calls
        ≡ []
          ++ (relay_complete_request
              ∷ relay_send_request (some posted)
              ∷ relay_write_body (2 ∷ 3 ∷ [])
              ∷ []))
unfolding client_handle_fd header_new
early_bodies_lost_example =
    early_bodies_lost no_parts reading 7 early_parts refl refl (omega arith, (omega arith, tt))
      ((λ e. cc), ((λ e. cc), tt))
