-- ===== src/Client/Response/Complete.antt =====
-- client.c: the response header that a client gets, and what the end of a response does.
use h2_client_proxy.Base.{
  arith, none, Option, length, ltb, ◌<◌, if◌then◌else◌, sym, inr, true, inl, ℕ, Bool-cases, Bool,
  ◌||◌, append-nil, ◌≡◌, ◌≢◌, false, some, [], ◌∷◌, ◌++◌, refl, ap, ◌∙◌, append_assoc, Bytes, codes,
}
use h2_client_proxy.Util.{get_status_string}
use h2_client_proxy.Util.Format.{append_format-fits}
use h2_client_proxy.Header.{Header, header_value}
use h2_client_proxy.RelayHttp2.Request.{UrlParser}
use h2_client_proxy.Client.Types.{Client, relay_create}
use h2_client_proxy.Header.Render.{Fits, AllFit, render, append_fields-render}
use h2_client_proxy.Client.Output.{SendResult, failed, client_write}
use h2_client_proxy.Client.Output.Stream.{Wrote, stream, IsCounted, client_write-Wrote}
use h2_client_proxy.Client.Response.{
  header_get_host, header_get_host_port, client_handle_relay_msg_complete, is_chunked, has_value,
  next_request, create_relay, response_size, response_text, client_handle_relay_hdr_complete,
}

abbrev pub status_line : Bytes → Bytes
status_line s = codes "HTTP/1.1 " ++ (s ++ codes "\r\n")

response_text-render :
    (s : Bytes) (h : Header)
    → Fits response_size (status_line s)
    → AllFit response_size h.list_headers
    → response_text s h ≡ status_line s ++ (render h.list_headers ++ codes "\r\n")
unfolding response_text
response_text-render s h f a = rw (append_format-fits [] response_size (status_line s) f.0 f.1) (
    rw (append_fields-render h.list_headers (status_line s) response_size a)
      (append_assoc (status_line s) (render h.list_headers) (codes "\r\n")))

-- The header of a response comes, its status has a line, each line of it fits a call of
-- `append_format`, all of them with the empty line are below the 204800 bytes of the buffer, and
-- `send` does not fail: no assertion fails, nothing overruns the buffer, and the client gets the status line, a line for each
-- field in order, and an empty line.
pub client_handle_relay_hdr_complete-stream :
    (h : Header) (r : SendResult) (c : Client) (s : Bytes)
    → get_status_string h.status_code false ≡ s
    → s ≢ []
    → Fits response_size (status_line s)
    → AllFit response_size h.list_headers
    → length (status_line s ++ (render h.list_headers ++ codes "\r\n")) < response_size
    → r ≢ failed
    → IsCounted c
    → (c' : Client) × (client_handle_relay_hdr_complete h r c ≡ some c')
      × (stream c' ≡ stream c ++ (status_line s ++ (render h.list_headers ++ codes "\r\n")))
      × IsCounted c'
unfolding client_handle_relay_hdr_complete
client_handle_relay_hdr_complete-stream h r c [] st ne f a all ok v = absurd (ne refl)
client_handle_relay_hdr_complete-stream h r c (x ∷ xs) st ne f a all ok v =
    let text = response_text-render (x ∷ xs) h f a in
    let room : ltb (length (response_text (x ∷ xs) h)) response_size ≡ true =
      ground (arith, text, all) in
    let w = client_write-Wrote (response_text (x ∷ xs) h) r c (λ e. cc) ok v in
    (
      client_write (response_text (x ∷ xs) h) r c,
      ap
            (λ (t : Bytes). elim t as (λ _. Option Client) [
              | [] ↦ none
              | y ∷ ys ↦
                  if ltb (length (response_text (y ∷ ys) h)) response_size
                  then some (client_write (response_text (y ∷ ys) h) r c)
                  else none
            ])
            st
          ∙ ap
              (λ (b : Bool). if b then some (client_write (response_text (x ∷ xs) h) r c) else none)
              room,
      w.stream_is ∙ ap (λ t. stream c ++ t) text,
      w.is_counted,
    )

-- What ends a response for the client.
abbrev pub end_text : Header → Bytes
end_text h = if is_chunked h then codes "0\r\n\r\n" else []

-- The client after the write at the end of a response.
write_end : Header → SendResult → Client → Client
write_end h r c = if is_chunked h then client_write (codes "0\r\n\r\n") r c else c

write_end-Wrote :
    (h : Header) (r : SendResult) (c : Client)
    → r ≢ failed
    → IsCounted c
    → Wrote (end_text h) c (write_end h r c)
unfolding write_end
write_end-Wrote h r c ok v = elim (Bool-cases (is_chunked h)) [
  | inl t ↦ rw t (client_write-Wrote (codes "0\r\n\r\n") r c (λ e. cc) ok v)
  | inr t ↦ rw t (record {
    stream_is = sym (append-nil (stream c));
    is_counted = v;
    same_relay = refl;
    same_pending = refl;
    same_calls = refl;
  })
]

-- Whether the response says where it ends.
abbrev pub is_delimited : Header → Bool
is_delimited h =
    has_value (header_value h (codes "Transfer-Encoding"))
    || has_value (header_value h (codes "Content-Length"))

module _ (parse_url : UrlParser) where
  -- A response that says where it ends is complete, `send` does not fail, and the next request of
  -- the client was read meanwhile: the client gets the last chunk if the response is chunked, and
  -- that request becomes the current one, for which the one call made is that a new relay is
  -- created, for the host and the port of its URL.
  pub client_handle_relay_msg_complete-next :
      (id : ℕ) (h next : Header) (host : Bytes) (port : ℕ) (r : SendResult) (c : Client)
      → is_delimited h ≡ true
      → c.pending_request_header ≡ some next
      → header_get_host parse_url next ≡ some host
      → header_get_host_port parse_url next ≡ some port
      → r ≢ failed
      → IsCounted c
      → (c' : Client) × (client_handle_relay_msg_complete parse_url id h r c ≡ some c')
        × (stream c' ≡ stream c ++ end_text h)
        × (c'.relay ≡ some id)
        × (c'.request_header ≡ some next)
        × (c'.pending_request_header ≡ none)
        × (c'.calls ≡ c.calls ++ relay_create host port ∷ [])
  unfolding client_handle_relay_msg_complete next_request create_relay write_end
  client_handle_relay_msg_complete-next id h next host port r c d p eh ep ok v =
      let w = write_end-Wrote h r c ok v in
      (
        record (write_end h r c) {
          relay = some id;
          request_header = some next;
          pending_request_header = none;
          calls = (write_end h r c).calls ++ relay_create host port ∷ [];
        },
        ground (arith, w.same_pending),
        w.stream_is,
        refl,
        refl,
        refl,
        rw w.same_calls refl,
      )
