-- ===== src/Client/Output/Stream.antt =====
-- client.c: the bytes written to a client against those sent and those that wait.
use h2_client_proxy.Base.{
  drop-ne-nil, list_cases, take_all, lt→ltb, dec_lt, take-append-drop, drop, take, ℕ, inl, inr, ◌≡◌,
  ◌≢◌, [], ◌∷◌, ◌++◌, refl, sym, ap, ◌∙◌, arith, append-nil, append_assoc, length, length-append,
  Bytes,
}
use h2_client_proxy.EpBuffer.{EpBuffer}
use h2_client_proxy.EpBuffer.Stream.{pending, AllLive, pending-append, AllLive-append}
use h2_client_proxy.Client.Types.{Client}
use h2_client_proxy.Client.Output.{
  in_progress, failed, taken, write_part, failed, taken, SendResult, client_write, write_now, keep,
}

-- All that was sent to the client or still waits.
abbrev pub stream : Client → Bytes
stream c = c.sent ++ pending c.list_response_write_buffer

-- Every buffer has bytes left, and `pending_write` counts them all.
pub record IsCounted (c : Client) : Type 0 where
  pub live : AllLive c.list_response_write_buffer
  pub counted : c.pending_write ≡ length (pending c.list_response_write_buffer)

-- A client after a write.
pub record Wrote (bytes : Bytes) (c c' : Client) : Type 0 where
  pub stream_is : stream c' ≡ stream c ++ bytes
  pub is_counted : IsCounted c'
  pub same_relay : c'.relay ≡ c.relay
  pub same_pending : c'.pending_request_header ≡ c.pending_request_header
  pub same_calls : c'.calls ≡ c.calls

keep-Wrote : (bytes : Bytes) (c : Client) → bytes ≢ [] → IsCounted c → Wrote bytes c (keep bytes c)
keep-Wrote [] c ne v = absurd (ne refl)
keep-Wrote (x ∷ xs) c ne v =
    let b : EpBuffer = record { buf = x ∷ xs; len_total = length (x ∷ xs); len_sent = 0 } in
    let p : pending (keep (x ∷ xs) c).list_response_write_buffer
        ≡ pending c.list_response_write_buffer ++ (x ∷ xs) =
      pending-append c.list_response_write_buffer (b ∷ []) ∙ rw append-nil in
    record {
      stream_is =
          ap (◌++◌ c.sent) p
          ∙ sym (append_assoc c.sent (pending c.list_response_write_buffer) (x ∷ xs));
      is_counted = record {
        live = AllLive-append c.list_response_write_buffer (b ∷ []) v.live (omega arith, tt);
        counted = omega (
          arith,
          v.counted,
          ap length p,
          length-append (pending c.list_response_write_buffer) (x ∷ xs),
        );
      };
      same_relay = refl;
      same_pending = refl;
      same_calls = refl;
    }

-- A client after `send` took the first `n` bytes.
abbrev sent_first : Bytes → ℕ → Client → Client
sent_first bytes n c = record c { sent = c.sent ++ take n bytes }

-- With nothing waiting, the bytes taken go behind those sent, and the others wait.
taken_part :
    (bytes : Bytes) (n : ℕ) (c : Client)
    → c.list_response_write_buffer ≡ []
    → stream (sent_first bytes n c) ++ drop n bytes ≡ stream c ++ bytes
taken_part bytes n c e = rw (ap pending e) (simp (append-nil, append_assoc, take-append-drop))

write_part-Wrote :
    (bytes : Bytes) (n : ℕ) (c : Client)
    → c.list_response_write_buffer ≡ []
    → IsCounted c
    → Wrote bytes c (write_now bytes (taken n) c)
unfolding write_now write_part
write_part-Wrote bytes n c empty v = elim (dec_lt n (length bytes)) [
  | yes part ↦
      let c1 = sent_first bytes n c in
      let k =
        keep-Wrote (drop n bytes) c1 (drop-ne-nil n bytes part)
          (record { live = v.live; counted = v.counted }) in
      rw (lt→ltb n (length bytes) part) (record {
        stream_is = k.stream_is ∙ taken_part bytes n c empty;
        is_counted = record { live = k.is_counted.live; counted = k.is_counted.counted };
        same_relay = refl;
        same_pending = refl;
        same_calls = refl;
      })
  | no whole ↦
      let stays : write_part bytes n c ≡ sent_first bytes n c = ground arith in
      rw stays (record {
        stream_is = rw (take_all n bytes (omega arith)) (rw (ap pending empty) (simp append-nil));
        is_counted = record { live = v.live; counted = v.counted };
        same_relay = refl;
        same_pending = refl;
        same_calls = refl;
      })
]

-- A write of some bytes to a client, where `send`, if it is called, takes at most all of them or
-- fails with EINPROGRESS, and with no other error: what was sent or waits is followed by exactly
-- these bytes, and `pending_write` is still the number of bytes that wait.
pub client_write-Wrote :
    (bytes : Bytes) (r : SendResult) (c : Client)
    → bytes ≢ []
    → r ≢ failed
    → IsCounted c
    → Wrote bytes c (client_write bytes r c)
unfolding client_write write_now
client_write-Wrote bytes r c ne ok v = elim (list_cases c.list_response_write_buffer) [
  | inl empty ↦
      let is_now : client_write bytes r c ≡ write_now bytes r c = ground arith in
      rw is_now (now r ok empty)
  | inr (f, rest, e) ↦
      let is_kept : client_write bytes r c ≡ keep bytes c = ground arith in
      rw is_kept (keep-Wrote bytes c ne v)
]
  where
    now :
        (r : SendResult)
        → r ≢ failed
        → c.list_response_write_buffer ≡ []
        → Wrote bytes c (write_now bytes r c)
    now (taken n) ok empty = write_part-Wrote bytes n c empty v
    now in_progress ok empty =
        let k = keep-Wrote bytes c ne v in
        record {
          stream_is = k.stream_is;
          is_counted = record { live = k.is_counted.live; counted = k.is_counted.counted };
          same_relay = refl;
          same_pending = refl;
          same_calls = refl;
        }
    now failed ok empty = absurd (ok refl)
