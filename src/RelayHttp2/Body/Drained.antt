-- ===== src/RelayHttp2/Body/Drained.antt =====
-- relay_http2.c: nghttp2 pulls the body until there is no more of it.
use h2_client_proxy.Base.{
  ℕ, zero, suc, ◌+◌, ◌<◌, ◌==◌, min, Bool, true, false, Option, none, some, [], ◌∷◌, ◌++◌, ◌≡◌,
  refl, ap, sym, ◌∙◌, arith, length, take, drop, if◌then◌else◌, length-drop, take-append-drop,
  drop_all, inl, inr, Bool-cases, Bytes,
}
use h2_client_proxy.EpBuffer.Stream.{pending, AllLive, take-nil}
use h2_client_proxy.RelayHttp2.Types.{Http2Relay}
use h2_client_proxy.RelayHttp2.Body.{
  ReadResult, sent, eof, deferred, relay_data_source_read_callback,
}
use h2_client_proxy.RelayHttp2.Body.Copy.{
  relay_data_source_read_callback-pending, relay_data_source_read_callback-result,
}

-- What comes after a call with this result: the rest of the calls if it handed out bytes.
abbrev carry :
    Option (Bytes × ReadResult × Http2Relay)
    → ReadResult
    → Bytes
    → Http2Relay
    → Option (Bytes × ReadResult × Http2Relay)
carry none (sent n) out relay = none
carry (some (more, last, after)) (sent n) out relay = some (out ++ more, last, after)
carry rest eof out relay = some (out, eof, relay)
carry rest deferred out relay = some (out, deferred, relay)

-- nghttp2 calls the read callback again as long as it hands out bytes; the k-th call asks for
-- `asks k` bytes. The bytes, the last result and the relay; none if the fuel, a unit for each call,
-- ran out.
unfoldable pub pull_all : (ℕ → ℕ) → ℕ → ℕ → Http2Relay → Option (Bytes × ReadResult × Http2Relay)
pull_all asks zero k relay = none
pull_all asks (suc fuel) k relay =
    let (result, out, relay') = relay_data_source_read_callback relay (asks k) in
    carry (pull_all asks fuel (k + 1) relay') result out relay'

-- What is left, and how the body ends.
abbrev pub ending : Http2Relay → ReadResult
ending relay = if relay.is_request_complete then eof else deferred

record Pulled (relay : Http2Relay) (m : Option (Bytes × ReadResult × Http2Relay)) : Type 0 where
  after : Http2Relay
  runs : m ≡ some (pending relay.list_write_buf, ending relay, after)
  empty : pending after.list_write_buf ≡ []

nil_of_length : (bytes : Bytes) → length bytes == 0 ≡ true → bytes ≡ []
nil_of_length [] e = refl
nil_of_length (c ∷ cs) e = ground (arith, e)

some_left : (bytes : Bytes) → length bytes == 0 ≡ false → 0 < length bytes
some_left [] e = cc
some_left (c ∷ cs) e = omega arith

ended :
    (c : Bool) (rest : Option (Bytes × ReadResult × Http2Relay)) (out : Bytes) (relay : Http2Relay)
    → carry rest (if c then eof else deferred) out relay
      ≡ some (out, (if c then eof else deferred), relay)
ended true none out relay = refl
ended true (some x) out relay = refl
ended false none out relay = refl
ended false (some x) out relay = refl

module _ (asks : ℕ → ℕ) (asked : (k : ℕ) → 0 < asks k) where
  pull_all-Pulled :
      (fuel k : ℕ) (relay : Http2Relay)
      → AllLive relay.list_write_buf
      → length (pending relay.list_write_buf) < fuel
      → Pulled relay (pull_all asks fuel k relay)
  unfolding pull_all
  pull_all-Pulled zero k relay live enough = absurd (omega (arith, enough))
  pull_all-Pulled (suc fuel) k relay live enough =
      let r = relay_data_source_read_callback relay (asks k) in
      let (out, left, live', same) = relay_data_source_read_callback-pending relay (asks k) live in
      let result = relay_data_source_read_callback-result relay (asks k) live (asked k) in
      let bytes = pending relay.list_write_buf in
      elim (Bool-cases (length bytes == 0)) [
        | inl t ↦
            let none_left = nil_of_length bytes t in
            let nothing : r.1 ≡ [] = out ∙ ap (take (asks k)) none_left ∙ take-nil (asks k) in
            let last : r.0 ≡ ending relay =
              result ∙ ap (λ c. if c then ending relay else sent (min (asks k) (length bytes))) t in
            let rest = pull_all asks fuel (k + 1) r.2 in
            record {
              after = r.2;
              runs =
                  ap (λ x. carry rest x r.1 r.2) last
                  ∙ ended relay.is_request_complete rest r.1 r.2
                  ∙ ap (λ (x : Bytes). some (x, ending relay, r.2)) (nothing ∙ sym none_left);
              empty = left ∙ ap (drop (asks k)) none_left ∙ drop_all (asks k) [] (omega arith);
            }
        | inr f ↦
            let fewer : length (pending r.2.list_write_buf) < fuel = omega (
              arith,
              ap length left,
              length-drop (asks k) bytes,
              asked k,
              enough,
              some_left bytes f,
            ) in
            let p = pull_all-Pulled fuel (k + 1) r.2 live' fewer in
            let n = min (asks k) (length bytes) in
            let more : r.0 ≡ sent n = result ∙ ap (λ c. if c then ending relay else sent n) f in
            let same_end : ending r.2 ≡ ending relay = ap ending same in
            record {
              after = p.after;
              runs =
                  ap (λ x. carry (pull_all asks fuel (k + 1) r.2) x r.1 r.2) more
                  ∙ ap (λ x. carry x (sent n) r.1 r.2) p.runs
                  ∙ ap (λ (x : ReadResult). some (r.1 ++ pending r.2.list_write_buf, x, p.after))
                      same_end
                  ∙ ap (λ (x : Bytes). some (x, ending relay, p.after))
                      (ap (λ x. x ++ pending r.2.list_write_buf) out
                        ∙ ap (λ x. take (asks k) bytes ++ x) left
                        ∙ take-append-drop (asks k) bytes);
              empty = p.empty;
            }
      ]

  -- From a relay whose buffers all have bytes left, whatever positive numbers of bytes nghttp2 asks
  -- for: with more calls than there are bytes, it gets all the bytes that the relay holds, in order,
  -- and then the end of the body if the request is complete, and is deferred otherwise; the relay is
  -- left without bytes.
  pub pull_all-pending :
      (fuel : ℕ) (relay : Http2Relay)
      → AllLive relay.list_write_buf
      → length (pending relay.list_write_buf) < fuel
      → (after : Http2Relay) × (pull_all asks fuel 0 relay
          ≡ some (pending relay.list_write_buf, ending relay, after))
        × (pending after.list_write_buf ≡ [])
  pull_all-pending fuel relay live enough =
      let p = pull_all-Pulled fuel 0 relay live enough in (p.after, p.runs, p.empty)
