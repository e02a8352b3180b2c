-- ===== src/RelayHttp/Request/Wire.antt =====
-- relay_http.c: the bytes that a relay writes to the server.
use h2_client_proxy.Base.{
  arith, ℕ, ◌==◌, Bool, true, false, Option, some, List, [], ◌∷◌, ◌++◌, ◌≡◌, refl, ap, sym, ◌∙◌,
  append-nil, append_assoc, Bytes, codes, if◌then◌else◌, length,
}
use h2_client_proxy.Client.Response.{chunk_line}
use h2_client_proxy.RelayHttp.Types.{Relays, Call, conn_write, call_conn, emit}
use h2_client_proxy.RelayHttp.Request.{relay_write_body, relay_complete_request, and_then}

eq_refl : (n : ℕ) → (n == n) ≡ true
eq_refl n = ground arith

-- The bytes of a call, if it is a write of this relay.
written : ℕ → ℕ × Call → Bytes
written id (x, conn_write bytes) = if x == id then bytes else []
written id (x, c) = []

-- All that a relay wrote.
unfoldable pub wire : ℕ → List (ℕ × Call) → Bytes
unfolding written
wire id [] = []
wire id (c ∷ cs) = written id c ++ wire id cs

wire-append : (id : ℕ) (a b : List (ℕ × Call)) → wire id (a ++ b) ≡ wire id a ++ wire id b
unfolding wire
wire-append id [] b = refl
wire-append id (c ∷ a) b =
    ap (λ x. written id c ++ x) (wire-append id a b)
    ∙ sym (append_assoc (written id c) (wire id a) (wire id b))

wire-one : (id : ℕ) (bytes : Bytes) → wire id ((id, conn_write bytes) ∷ []) ≡ bytes
unfolding wire written
wire-one id bytes = ap (λ c. (if c then bytes else []) ++ []) (eq_refl id) ∙ append-nil bytes

pub wire-write :
    (id : ℕ) (bytes : Bytes) (w : Relays)
    → wire id (emit id (conn_write bytes) w).calls ≡ wire id w.calls ++ bytes
wire-write id bytes w =
    wire-append id w.calls ((id, conn_write bytes) ∷ [])
    ∙ ap (λ x. wire id w.calls ++ x) (wire-one id bytes)

-- A part of a body as it stands on the wire.
abbrev pub part_text : Bool → Bytes → Bytes
part_text is_chunked bytes =
    if is_chunked then chunk_line (length bytes) ++ (bytes ++ codes "\r\n") else bytes

abbrev pub end_text : Bool → Bytes
end_text is_chunked = if is_chunked then codes "0\r\n\r\n" else []

-- A body in parts, and its end.
unfoldable pub send_body : ℕ → List Bytes → Relays → Option Relays
send_body id [] w = relay_complete_request id w
send_body id (bytes ∷ parts) w = and_then (send_body id parts) (relay_write_body id bytes w)

unfoldable pub parts_text : Bool → List Bytes → Bytes
parts_text is_chunked [] = end_text is_chunked
parts_text is_chunked (bytes ∷ parts) = part_text is_chunked bytes ++ parts_text is_chunked parts

-- The result of writes of a relay: these bytes are on the wire behind what was there, and the
-- relays are as they were.
pub record Wrote (id : ℕ) (bytes : Bytes) (w : Relays) (m : Option Relays) : Type 0 where
  pub after : Relays
  pub is_some : m ≡ some after
  pub on_wire : wire id after.calls ≡ wire id w.calls ++ bytes
  pub same_relays : after.relay_at ≡ w.relay_at

write-Wrote :
    (id : ℕ) (bytes : Bytes) (w : Relays)
    → (w.relay_at id).conn ≡ true
    → Wrote id bytes w (call_conn id (conn_write bytes) w)
unfolding call_conn
write-Wrote id bytes w e = record {
  after = emit id (conn_write bytes) w;
  is_some = rw (call_conn, e) refl;
  on_wire = wire-write id bytes w;
  same_relays = refl;
}

Wrote-trans :
    (id : ℕ) (a b : Bytes) (w : Relays) (m : Option Relays) (f : Relays → Option Relays)
    → Wrote id a w m
    → ((w1 : Relays) → w1.relay_at ≡ w.relay_at → Wrote id b w1 (f w1))
    → Wrote id (a ++ b) w (and_then f m)
Wrote-trans id a b w m f x k =
    let y = k x.after x.same_relays in
    record {
      after = y.after;
      is_some = rw (x.is_some) y.is_some;
      on_wire = y.on_wire ∙ ap (λ s. s ++ b) x.on_wire ∙ append_assoc (wire id w.calls) a b;
      same_relays = y.same_relays ∙ x.same_relays;
    }

-- The relay is open, and its body comes in chunks or not.
abbrev pub IsOpen : ℕ → Bool → Relays → Type 0
IsOpen id c w = ((w.relay_at id).conn ≡ true) × ((w.relay_at id).is_chunk_post ≡ c)

IsOpen-same :
    (id : ℕ) (c : Bool) (w w1 : Relays) → w1.relay_at ≡ w.relay_at → IsOpen id c w → IsOpen id c w1
IsOpen-same id c w w1 e o = (ap (λ f. (f id).conn) e ∙ o.0, ap (λ f. (f id).is_chunk_post) e ∙ o.1)

-- A part of a body is written as a chunk, or as it is.
pub relay_write_body-Wrote :
    (id : ℕ) (c : Bool) (bytes : Bytes) (w : Relays)
    → IsOpen id c w
    → Wrote id (part_text c bytes) w (relay_write_body id bytes w)
unfolding relay_write_body
relay_write_body-Wrote id true bytes w o =
    let line = chunk_line (length bytes) in
    let still : (w1 : Relays) → w1.relay_at ≡ w.relay_at → (w1.relay_at id).conn ≡ true =
      λ w1 e. ap (λ f. (f id).conn) e ∙ o.0 in
    let two =
      Wrote-trans id line bytes w (call_conn id (conn_write line) w)
        (call_conn id (conn_write bytes)) (write-Wrote id line w o.0)
        (λ w1 e. write-Wrote id bytes w1 (still w1 e)) in
    rw (relay_write_body, o.1, sym (append_assoc line bytes (codes "\r\n")))
      (Wrote-trans id (line ++ bytes) (codes "\r\n") w
        (and_then (call_conn id (conn_write bytes)) (call_conn id (conn_write line) w))
        (call_conn id (conn_write (codes "\r\n"))) two
        (λ w1 e. write-Wrote id (codes "\r\n") w1 (still w1 e)))
relay_write_body-Wrote id false bytes w o = rw (relay_write_body, o.1) (write-Wrote id bytes w o.0)

pub relay_complete_request-Wrote :
    (id : ℕ) (c : Bool) (w : Relays)
    → IsOpen id c w
    → Wrote id (end_text c) w (relay_complete_request id w)
unfolding relay_complete_request
relay_complete_request-Wrote id true w o =
    rw (relay_complete_request, o.1) (write-Wrote id (codes "0\r\n\r\n") w o.0)
relay_complete_request-Wrote id false w o =
    rw (relay_complete_request, o.1)
      (record {
        after = w;
        is_some = refl;
        on_wire = sym (append-nil (wire id w.calls));
        same_relays = refl;
      })

-- The parts of a body and its end, on a relay whose connection is open, are no crash. What is on the
-- wire then is each part as a chunk and the last chunk, of length 0, for a body in chunks, and else
-- the parts as they are; the relays are as they were.
pub send_body-Wrote :
    (id : ℕ) (c : Bool) (parts : List Bytes) (w : Relays)
    → (w.relay_at id).conn ≡ true
    → (w.relay_at id).is_chunk_post ≡ c
    → Wrote id (parts_text c parts) w (send_body id parts w)
unfolding send_body parts_text
send_body-Wrote id c [] w up e = relay_complete_request-Wrote id c w (up, e)
send_body-Wrote id c (bytes ∷ parts) w up e =
    Wrote-trans id (part_text c bytes) (parts_text c parts) w (relay_write_body id bytes w)
      (send_body id parts) (relay_write_body-Wrote id c bytes w (up, e))
      (λ w1 same.
        let o = IsOpen-same id c w w1 same (up, e) in send_body-Wrote id c parts w1 o.0 o.1)
