-- ===== src/RelayHttp2/Response/Length.antt =====
-- relay_http2.c: `relay_check_length_info` makes the response one that can be passed on over a
-- connection that stays open.
use h2_client_proxy.Base.{
  ◌&&◌, ltb, ◌≤◌, not, true, Bool, false, ◌||◌, ◌≡◌, arith, Bytes, codes, c_str, str_case_eq,
}
use h2_client_proxy.Header.{Header, header_value, header_add_pair}
use h2_client_proxy.Header.Lookup.{header_value-header_add_pair, header_value-case}
use h2_client_proxy.RelayHttp2.Response.{check_length_info, is_set, with_connection}

-- A name is set after `header_add_pair` if it was, or if it is the one that is added.
add_pair_set :
    (h : Header) (f v k : Bytes)
    → is_set (header_value (header_add_pair h f v) k)
      ≡ (is_set (header_value h k) || str_case_eq (c_str f) k)
add_pair_set h f v k = ground (arith, header_value-header_add_pair h f v k)

abbrev connection : Bytes
connection = codes "proxy-connection"

abbrev encoding : Bytes
encoding = codes "Transfer-Encoding"

with_connection_set :
    (h : Header) (k : Bytes)
    → is_set (header_value (with_connection h) k)
      ≡ (is_set (header_value h k) || str_case_eq connection k)
unfolding with_connection c_str
with_connection_set h k = ground (
  arith,
  add_pair_set h connection (codes "keep-alive") k,
  add_pair_set h connection (codes "close") k,
  header_value-case h connection k,
)

abbrev content_length : Bytes
content_length = codes "content-length"

-- A name is set in the new header if it was, if it is "proxy-connection", or if it is
-- "Transfer-Encoding" and that was added.
check_length_info_set :
    (h : Header) (old : Bool) (k : Bytes)
    → is_set (header_value (check_length_info h old).0 k) ≡ (
        is_set (header_value h k)
        || (str_case_eq connection k
            || ((not (ltb 400 h.status_code)
                  && not
                      (is_set (header_value h content_length) || is_set (header_value h encoding)))
                && str_case_eq encoding k)))
unfolding check_length_info c_str
check_length_info_set h old k =
    ground (
      arith,
      with_connection_set h k,
      add_pair_set (with_connection h) encoding (codes "chunked") k,
    )

-- The response that is passed on has a "proxy-connection" field, whatever its status.
pub check_length_info-proxy_connection :
    (h : Header) (old : Bool)
    → is_set (header_value (check_length_info h old).0 (codes "proxy-connection")) ≡ true
unfolding str_case_eq
check_length_info-proxy_connection h old =
    ground (arith, check_length_info_set h old (codes "proxy-connection"))

-- For a status of at most 400, the response that is passed on has a "content-length" or a
-- "Transfer-Encoding" field, and `has_length_info` says whether it had one of the two before.
pub check_length_info-length :
    (h : Header) (old : Bool)
    → h.status_code ≤ 400
    → ((is_set (header_value (check_length_info h old).0 (codes "content-length"))
          || is_set (header_value (check_length_info h old).0 (codes "Transfer-Encoding")))
        ≡ true)
      × ((check_length_info h old).1 ≡ (
          is_set (header_value h (codes "content-length"))
          || is_set (header_value h (codes "Transfer-Encoding"))))
unfolding str_case_eq
check_length_info-length h old low = (
  ground (
    arith,
    check_length_info_set h old (codes "content-length"),
    check_length_info_set h old (codes "Transfer-Encoding"),
  ),
  unfold check_length_info in ground arith,
)

add_pair_keeps :
    (h : Header) (f v k : Bytes)
    → str_case_eq (c_str f) k ≡ false
    → header_value (header_add_pair h f v) k ≡ header_value h k
add_pair_keeps h f v k e = ground (arith, header_value-header_add_pair h f v k)

with_connection_keeps :
    (h : Header) (k : Bytes)
    → str_case_eq connection k ≡ false
    → header_value (with_connection h) k ≡ header_value h k
unfolding with_connection c_str
with_connection_keeps h k e = ground (
  arith,
  add_pair_keeps h connection (codes "keep-alive") k,
  add_pair_keeps h connection (codes "close") k,
)

-- Every field of another name than these two keeps its value, and none appears.
pub check_length_info-keeps :
    (h : Header) (old : Bool) (k : Bytes)
    → str_case_eq (codes "proxy-connection") k ≡ false
    → str_case_eq (codes "Transfer-Encoding") k ≡ false
    → header_value (check_length_info h old).0 k ≡ header_value h k
unfolding check_length_info c_str
check_length_info-keeps h old k e t = ground (
  arith,
  with_connection_keeps h k e,
  add_pair_keeps (with_connection h) encoding (codes "chunked") k,
)
