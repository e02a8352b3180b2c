-- ===== src/RelayHttp2/Tunnel/Sends.antt =====
-- relay_http2.c and conn_tcp.c: what nghttp2 takes to be sent over the tunnel, and what is. What
-- `send` returns is an argument: a number of bytes, none for -1.
use h2_client_proxy.Base.{
  ℕ, ◌+◌, ◌≤◌, ◌≡◌, ◌↔◌, refl, sym, ap, ◌∙◌, arith, Option, none, some, List, [], ◌∷◌, ◌++◌, length,
  Bytes, length-append, length-take, take_all, append-nil, append_assoc,
}
use h2_client_proxy.Conn.{taken_of, tcp_conn_write}

-- What is reported to nghttp2 is the length of the bytes, whatever `conn_write` returns.
unfoldable pub relay_session_send_callback : Bytes → Option ℕ → Bytes → Bytes × ℕ
unfolding tcp_conn_write
relay_session_send_callback bytes r on_wire = ((tcp_conn_write bytes r on_wire).0, length bytes)

-- The calls that nghttp2 makes, each with the result of `send`; with the sum of what is reported.
unfoldable pub send_all : List (Bytes × Option ℕ) → Bytes → Bytes × ℕ
unfolding relay_session_send_callback
send_all [] on_wire = (on_wire, 0)
send_all ((bytes, r) ∷ calls) on_wire =
    let first = relay_session_send_callback bytes r on_wire in
    let rest = send_all calls first.0 in (rest.0, first.1 + rest.1)

-- The bytes that nghttp2 hands over.
abbrev pub handed : List (Bytes × Option ℕ) → Bytes
handed [] = []
handed ((bytes, r) ∷ calls) = bytes ++ handed calls

-- Every call of `send` takes all that it is given.
abbrev pub AllWhole : List (Bytes × Option ℕ) → Type 0
AllWhole [] = Unit {0}
AllWhole ((bytes, r) ∷ calls) = (length (taken_of bytes r) ≡ length bytes) × AllWhole calls

taken_within : (bytes : Bytes) (r : Option ℕ) → length (taken_of bytes r) ≤ length bytes
unfolding taken_of
taken_within bytes none = omega arith
taken_within bytes (some n) = omega (arith, length-take n bytes)

taken_whole :
    (bytes : Bytes) (r : Option ℕ)
    → length (taken_of bytes r) ≡ length bytes
    → taken_of bytes r ≡ bytes
unfolding taken_of
taken_whole [] none e = refl
taken_whole (c ∷ cs) none e = absurd (omega (arith, e))
taken_whole bytes (some n) e = take_all n bytes (omega (arith, length-take n bytes, e))

send_all-reported :
    (calls : List (Bytes × Option ℕ)) (on_wire : Bytes)
    → (send_all calls on_wire).1 ≡ length (handed calls)
unfolding send_all
send_all-reported [] w = refl
send_all-reported ((bytes, r) ∷ calls) w =
    omega
      (arith, send_all-reported calls (w ++ taken_of bytes r), length-append bytes (handed calls))

send_all-within :
    (calls : List (Bytes × Option ℕ)) (on_wire : Bytes)
    → length (send_all calls on_wire).0 ≤ length on_wire + length (handed calls)
unfolding send_all
send_all-within [] w = omega arith
send_all-within ((bytes, r) ∷ calls) w = omega (
  arith,
  send_all-within calls (w ++ taken_of bytes r),
  length-append w (taken_of bytes r),
  length-append bytes (handed calls),
  taken_within bytes r,
)

whole_of_length :
    (calls : List (Bytes × Option ℕ)) (on_wire : Bytes)
    → length (send_all calls on_wire).0 ≡ length on_wire + length (handed calls)
    → AllWhole calls
unfolding send_all
whole_of_length [] w e = tt
whole_of_length ((bytes, r) ∷ calls) w e =
    let w1 = w ++ taken_of bytes r in
    let bound = send_all-within calls w1 in
    let sum = length-append w (taken_of bytes r) in
    let total = length-append bytes (handed calls) in
    let part = taken_within bytes r in
    (
      omega (arith, e, bound, sum, total, part),
      whole_of_length calls w1 (omega (arith, e, bound, sum, total, part)),
    )

wire_of_whole :
    (calls : List (Bytes × Option ℕ)) (on_wire : Bytes)
    → AllWhole calls
    → (send_all calls on_wire).0 ≡ on_wire ++ handed calls
unfolding send_all
wire_of_whole [] w a = sym (append-nil w)
wire_of_whole ((bytes, r) ∷ calls) w a =
    wire_of_whole calls (w ++ taken_of bytes r) a.1
    ∙ append_assoc w (taken_of bytes r) (handed calls)
    ∙ ap (λ x. w ++ (x ++ handed calls)) (taken_whole bytes r a.0)

-- Whatever nghttp2 sends over the tunnel and whatever `send` returns: all bytes handed over are
-- reported as sent, but what is on the wire is followed by just these bytes if and only if every call
-- of `send` took all that it was given.
pub send_all-exact :
    (calls : List (Bytes × Option ℕ)) (on_wire : Bytes)
    → ((send_all calls on_wire).1 ≡ length (handed calls))
      × (((send_all calls on_wire).0 ≡ on_wire ++ handed calls) ↔ AllWhole calls)
send_all-exact calls w = (
  send_all-reported calls w,
  (
    λ e. whole_of_length calls w (ap length e ∙ length-append w (handed calls)),
    wire_of_whole calls w,
  ),
)
