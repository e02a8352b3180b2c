-- ===== src/Client/Response/Text.antt =====
-- client.c: the text that a client gets of a response header and of a chunk of the body.
use h2_client_proxy.Base.{
  length-append, ◌*◌, ℕ, zero, suc, ◌+◌, ◌-◌, ◌/◌, ◌%◌, ◌^◌, ◌<◌, ◌≡◌, ◌≢◌, some, [], ◌∷◌, ◌++◌,
  refl, ap, ◌∙◌, arith, append-nil, append_assoc, length, Bytes, codes, ltb, Bool-cases, inl, inr,
  if◌then◌else◌,
}
use h2_client_proxy.Header.{Header}
use h2_client_proxy.Client.Types.{Client, record_call, relay_suspend_read}
use h2_client_proxy.Client.Output.{SendResult, failed, client_write, write_limit}
use h2_client_proxy.Client.Output.Stream.{stream, IsCounted, Wrote, client_write-Wrote}
use h2_client_proxy.Client.Response.{
  hex_digit, hex, is_chunked, chunk_line, write_body, client_handle_relay_body,
}

-- The number of a hexadecimal digit, and of a text of them behind the number `n`.
abbrev digit_value : ℕ → ℕ
digit_value d = if ltb d 58 then d - 48 else d - 55

abbrev pub hex_value : ℕ → Bytes → ℕ
hex_value n [] = n
hex_value n (d ∷ ds) = hex_value (n * 16 + digit_value d) ds

digit_value-hex_digit : (d : ℕ) → d < 16 → digit_value (hex_digit d) ≡ d
unfolding hex_digit
digit_value-hex_digit d h = ground arith

-- The digits that are written of a number in front of others are read as this number.
pub hex_value-hex :
    (rounds n : ℕ) (out : Bytes)
    → n < 16 ^ rounds
    → hex_value 0 (hex rounds n out) ≡ hex_value n out
unfolding hex
hex_value-hex zero n out h = ap (λ k. hex_value k out) (omega arith)
hex_value-hex (suc rounds) n out h = elim (Bool-cases (ltb n 16)) [
  | inl low ↦
      let last : hex (suc rounds) n out ≡ hex_digit n ∷ out = rw (low, hex) refl in
      rw last (ap (λ k. hex_value k out) (omega (arith, digit_value-hex_digit n (ground arith))))
  | inr high ↦
      let more : hex (suc rounds) n out ≡ hex rounds (n / 16) (hex_digit (n % 16) ∷ out) =
        rw (high, hex) refl in
      ap (hex_value 0) more
      ∙ hex_value-hex rounds (n / 16) (hex_digit (n % 16) ∷ out) (omega arith)
      ∙ ap (λ k. hex_value k out) (omega (arith, digit_value-hex_digit (n % 16) (omega arith)))
]

-- The chunk line of a length of 32 bits is a hexadecimal text of this length and an end of line.
pub chunk_line-hex_value :
    (n : ℕ)
    → n < 2 ^ 32
    → (digits : Bytes) × (chunk_line n ≡ digits ++ codes "\r\n") × (hex_value 0 digits ≡ n)
unfolding chunk_line
chunk_line-hex_value n h = (hex 8 n [], refl, hex_value-hex 8 n [] h)

Wrote-trans : (x y : Bytes) (c c1 c2 : Client) → Wrote x c c1 → Wrote y c1 c2 → Wrote (x ++ y) c c2
Wrote-trans x y c c1 c2 v w = record {
  stream_is = w.stream_is ∙ ap (λ s. s ++ y) v.stream_is ∙ append_assoc (stream c) x y;
  is_counted = w.is_counted;
  same_relay = w.same_relay ∙ v.same_relay;
  same_pending = w.same_pending ∙ v.same_pending;
  same_calls = w.same_calls ∙ v.same_calls;
}

-- What a client is to get for a part of the body.
abbrev pub body_text : Header → Bytes → Bytes
body_text h bytes =
    if is_chunked h then chunk_line (length bytes) ++ (bytes ++ codes "\r\n") else bytes

chunk_line-ne-nil : (n : ℕ) → chunk_line n ≢ []
unfolding chunk_line
chunk_line-ne-nil n e = omega (arith, ap length e, length-append (hex 8 n []) (codes "\r\n"))

write_body-Wrote :
    (h : Header) (bytes : Bytes) (sends : ℕ → SendResult) (c : Client)
    → bytes ≢ []
    → ((k : ℕ) → sends k ≢ failed)
    → IsCounted c
    → Wrote (body_text h bytes) c (write_body h bytes sends c)
unfolding write_body
write_body-Wrote h bytes sends c ne ok v = elim (Bool-cases (is_chunked h)) [
  | inl t ↦
      let line = chunk_line (length bytes) in
      let c1 = client_write line (sends 0) c in
      let c2 = client_write bytes (sends 1) c1 in
      let w1 = client_write-Wrote line (sends 0) c (chunk_line-ne-nil (length bytes)) (ok 0) v in
      let w2 = client_write-Wrote bytes (sends 1) c1 ne (ok 1) w1.is_counted in
      let w3 = client_write-Wrote (codes "\r\n") (sends 2) c2 (λ e. cc) (ok 2) w2.is_counted in
      rw t (
        Wrote-trans line (bytes ++ codes "\r\n") c c1 (client_write (codes "\r\n") (sends 2) c2) w1
          (Wrote-trans bytes (codes "\r\n") c1 c2 (client_write (codes "\r\n") (sends 2) c2) w2 w3))
  | inr t ↦ rw t (client_write-Wrote bytes (sends 1) c ne (ok 1) v)
]

-- A part of the body comes for a client with a relay, and no `send` fails: no assertion fails, the
-- client gets exactly the part, inside a chunk of its own if the response is chunked, and the
-- relay's reading is suspended if more than 30000 bytes wait then, which is the one call that is made,
-- and else none is.
pub client_handle_relay_body-stream :
    (h : Header) (bytes : Bytes) (sends : ℕ → SendResult) (c : Client) (id : ℕ)
    → bytes ≢ []
    → ((k : ℕ) → sends k ≢ failed)
    → c.relay ≡ some id
    → IsCounted c
    → (c' : Client) × (client_handle_relay_body h bytes sends c ≡ some c')
      × (stream c' ≡ stream c ++ body_text h bytes)
      × IsCounted c'
      × (c'.calls
          ≡ c.calls ++ (if ltb write_limit c'.pending_write then relay_suspend_read ∷ [] else []))
unfolding client_handle_relay_body
client_handle_relay_body-stream h bytes sends c id ne ok r v =
    let w = write_body-Wrote h bytes sends c ne ok v in
    let c1 = write_body h bytes sends c in
    elim (Bool-cases (ltb write_limit c1.pending_write)) [
      | inl high ↦ (
        record_call relay_suspend_read c1,
        ground (arith, w.same_relay),
        w.stream_is,
        record { live = w.is_counted.live; counted = w.is_counted.counted },
        rw (high, w.same_calls) refl,
      )
      | inr low ↦
          (c1, ground arith, w.stream_is, w.is_counted, rw (low, w.same_calls, append-nil) refl)
    ]
