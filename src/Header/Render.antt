-- ===== src/Header/Render.antt =====
-- header.c: the text that `header_to_str` and, by the same loop, the client writes for a header.
use h2_client_proxy.Base.{
  ℕ, ◌≤◌, ◌<◌, List, [], ◌∷◌, ◌++◌, ◌≡◌, ◌∙◌, append-nil, append_assoc, length, Bytes, codes,
}
use h2_client_proxy.Util.{tmp_buf_size}
use h2_client_proxy.Util.Format.{append_format-fits}
use h2_client_proxy.Header.{Header, Field, field_line, append_fields, header_to_str, url_text}

-- The lines of a list of fields, one after the other.
unfoldable pub render : List Field → Bytes
render [] = []
render (f ∷ fs) = field_line f ++ render fs

-- A text fits one call of `append_format` with the limit `len`.
abbrev pub Fits : ℕ → Bytes → Type 0
Fits len text = (length text < tmp_buf_size) × (length text ≤ len)

abbrev pub AllFit : ℕ → List Field → Type 0
AllFit len [] = Unit {0}
AllFit len (f ∷ fs) = Fits len (field_line f) × AllFit len fs

-- The loop over the fields appends their lines, in order, each whole, if each fits a call.
pub append_fields-render :
    (fs : List Field) (buf : Bytes) (len : ℕ)
    → AllFit len fs
    → append_fields buf len fs ≡ buf ++ render fs
unfolding append_fields render
append_fields-render [] buf len a = rw append-nil
append_fields-render (f ∷ fs) buf len a =
    rw (append_format-fits buf len (field_line f) a.0.0 a.0.1)
      (append_fields-render fs (buf ++ field_line f) len a.1 ∙ append_assoc buf (field_line f) _)

abbrev pub request_line : Header → Bytes
request_line h = codes "GET " ++ (url_text h.url ++ codes " HTTP/1.1\r\n")

-- `header_to_str` writes a GET request line for the url, whatever the method, and then one line
-- for each field in order, if each of these texts fits a call of `append_format`.
pub header_to_str-render :
    (h : Header) (len : ℕ)
    → Fits len (request_line h)
    → AllFit len h.list_headers
    → header_to_str h len ≡ request_line h ++ render h.list_headers
unfolding header_to_str
header_to_str-render h len r a =
    rw (append_format-fits [] len (request_line h) r.0 r.1)
      (append_fields-render h.list_headers (request_line h) len a)
