-- ===== src/RelayHttp2/Request.antt =====
-- relay_http2.c: `relay_send_request` turns the header of the client's request into an HTTP/2
-- request. The parser of URLs, http_parser.c, is the parameter `parse_url`.
pub mod Nvs
use h2_client_proxy.Base.{
  ℕ, ◌==◌, ◌||◌, ◌&&◌, ltb, leb, length, Bool, true, false, not, Option, none, some, List, [], ◌∷◌,
  ◌++◌, if◌then◌else◌, take, drop, Bytes, codes, str_case_eq,
}
use h2_client_proxy.Util.{append_format}
use h2_client_proxy.Header.{Header, Field, header_value}
use h2_client_proxy.RelayHttp2.Types.{
  Nv, World, emit, update, submit_request, set_user_data, session_send, status_request_sent,
}

-- `field_data[...]` of `struct http_parser_url`.
pub record UrlPart : Type 0 where
  pub off : ℕ
  pub len : ℕ

-- `struct http_parser_url`: a part is there if its bit of `field_set` is.
pub record ParsedUrl : Type 0 where
  pub schema : Option UrlPart
  pub host : Option UrlPart
  pub port_text : Option UrlPart
  pub path : Option UrlPart
  pub query : Option UrlPart
  pub fragment : Option UrlPart
  pub port : ℕ

-- `http_parser_parse_url_(url, strlen(url), is_connect, &parsed)`
abbrev pub UrlParser : Type 0
UrlParser = Bytes → Bool → ParsedUrl

-- `strncpy(dst, url + off, len)` into an array of zeros.
abbrev pub url_part : Bytes → Option UrlPart → Bytes
url_part url none = []
url_part url (some p) = take p.len (drop p.off url)

-- `dst[0] ? dst : default`
abbrev pub or_default : Bytes → Bytes → Bytes
or_default [] d = d
or_default (c ∷ cs) d = c ∷ cs

append_part : Bytes → Bytes → Bytes → Option UrlPart → Bytes
append_part path mark url none = path
append_part path mark url (some p) = append_format path 4096 (mark ++ url_part url (some p))

-- The path with its query and fragment, "/" if the path is empty.
unfoldable pub request_path : Bytes → ParsedUrl → Bytes
unfolding append_part
request_path url u =
    let path = or_default (url_part url u.path) (codes "/") in
    append_part (append_part path (codes "?") url u.query) (codes "#") url u.fragment

abbrev pub port_or_default : Bytes → Option UrlPart → Bytes
port_or_default url none = codes "80"
port_or_default url (some p) = url_part url (some p)

abbrev pub value_or_empty : Option Bytes → Bytes
value_or_empty none = []
value_or_empty (some v) = v

authority_of : Bytes → Bytes → Header → Bytes
authority_of [] port h = value_or_empty (header_value h (codes "host"))
authority_of (c ∷ cs) port h = (c ∷ cs) ++ (codes ":" ++ port)

-- Host and port of the URL, or the host field.
unfoldable pub request_authority : Header → Bytes → ParsedUrl → Bytes
unfolding authority_of
request_authority h url u = authority_of (url_part url u.host) (port_or_default url u.port_text) h

-- The fields that are left out of the HTTP/2 request.
unfoldable pub is_skipped : Bytes → Bool
is_skipped name =
    str_case_eq name (codes "Host")
    || (str_case_eq name (codes "proxy-connection")
        || (str_case_eq name (codes "connection") || str_case_eq name (codes "keep-alive")))

unfoldable pub field_nvs : List Field → List Nv
field_nvs [] = []
field_nvs (pos ∷ rest) =
    if is_skipped pos.field
    then field_nvs rest
    else record { name = pos.field; value = pos.value } ∷ field_nvs rest

abbrev pub is_method : Header → Bytes → Bool
is_method h name = str_case_eq h.method name

-- The entries of `nvs`, in order.
unfoldable pub request_nvs : Header → Bytes → ParsedUrl → List Nv
request_nvs h url u =
    record { name = codes ":method"; value = h.method }
    ∷ ((if is_method h (codes "connect")
          then []
          else record { name = codes ":path"; value = request_path url u }
            ∷ record {
              name = codes ":scheme";
              value = or_default (url_part url u.schema) (codes "http");
            }
            ∷ [])
        ++ (record { name = codes ":authority"; value = request_authority h url u }
            ∷ field_nvs h.list_headers))

is_some : Option Bytes → Bool
is_some none = false
is_some (some v) = true

-- An upgrade, a POST and a CONNECT have a body.
unfoldable pub has_provider : Header → Bool
unfolding is_some
has_provider h =
    is_some (header_value h (codes "upgrade"))
    || (is_method h (codes "post") || is_method h (codes "connect"))

-- The parts of the URL, the path, the authority and the entries have room in their arrays, the texts
-- with the 0 byte behind them.
unfoldable pub fits_arrays : Header → Bytes → ParsedUrl → Bool
fits_arrays h url u =
    ltb (length (url_part url u.schema)) 24
    && (ltb (length (url_part url u.path)) 4096
        && (ltb (length (url_part url u.query)) 4096
            && (ltb (length (url_part url u.fragment)) 512
                && (ltb (length (request_path url u)) 4096
                    && (ltb (length (url_part url u.port_text)) 10
                        && (ltb (length (url_part url u.host)) 128
                            && (ltb (length (request_authority h url u)) 128
                                && leb (length (request_nvs h url u)) 100)))))))

-- With the id that `nghttp2_submit_request` returns, where `s_session` is set, as it is when a relay
-- reports that it is connected. A NULL url is a crash, and so is a text that overruns its array.
module _ (parse_url : UrlParser) where
  unfoldable pub relay_send_request : Header → ℕ → World → Option World
  unfolding fits_arrays
  relay_send_request h id w = elim h.url [
    | none ↦ none
    | some url ↦
        let u = parse_url url (is_method h (codes "connect")) in
        let w1 = emit (submit_request (request_nvs h url u) (has_provider h)) w in
        let w2 = update (λ r. record r { request_header = some h; stream_id = id }) w1 in
        let w3 = emit session_send (emit (set_user_data id true) w2) in
        let sent : Option World =
          some (update (λ r. record r { relay_status = status_request_sent }) w3) in
        if fits_arrays h url u then sent else none
  ]
