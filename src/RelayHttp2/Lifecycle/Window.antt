-- ===== src/RelayHttp2/Lifecycle/Window.antt =====
-- relay_http2.c: what `relay_suspend_read` and `relay_resume_read` make of the stream's window.
use h2_client_proxy.Base.{
  ℕ, ◌+◌, ◌==◌, false, List, [], ◌∷◌, ◌++◌, ◌≡◌, refl, ltb, if◌then◌else◌, arith, true, some,
}
use h2_client_proxy.RelayHttp2.Types.{update, World, Call, submit_window_update, session_send}
use h2_client_proxy.RelayHttp2.Lifecycle.{emit, relay_resume_read, relay_suspend_read, window_limit}

-- By how much a call opens the window of stream `id` (0 for the session).
abbrev pub opens_by : ℕ → Call → ℕ
opens_by id (submit_window_update stream n) = if stream == id then n else 0
opens_by id _ = 0

-- By how much some calls open it together.
abbrev pub opened : ℕ → List Call → ℕ
opened id [] = 0
opened id (c ∷ cs) = opens_by id c + opened id cs

pub opened-append :
    (id : ℕ) (cs ds : List Call) → opened id (cs ++ ds) ≡ opened id cs + opened id ds
opened-append id [] ds = omega arith
opened-append id (c ∷ cs) ds = omega (arith, opened-append id cs ds)

pub opened-emit :
    (id : ℕ) (c : Call) (w : World) → opened id (emit c w).calls ≡ opened id w.calls + opens_by id c
opened-emit id c w = omega (arith, opened-append id w.calls (c ∷ []))

-- After the client has suspended a relay that has a session, resuming it opens the window of its stream by the bytes
-- that were received meanwhile, if these are more than 30000, and by nothing otherwise; reading
-- is not suspended any more.
pub relay_resume_read-opened :
    (n : ℕ) (w : World)
    → w.relay.session ≡ true
    → (w' : World) × (relay_resume_read n (relay_suspend_read w) ≡ some w')
      × (opened w.relay.stream_id w'.calls
          ≡ opened w.relay.stream_id w.calls + (if ltb window_limit n then n else 0))
      × (w'.relay.is_response_read_suspend ≡ false)
unfolding relay_resume_read relay_suspend_read
relay_resume_read-opened n w session =
    let id = w.relay.stream_id in
    let opening = submit_window_update id n in
    let w1 = relay_suspend_read w in
    let opened_w = if ltb window_limit n then emit session_send (emit opening w1) else w1 in
    (
      update (λ r. record r { is_response_read_suspend = false }) opened_w,
      rw (session) refl,
      ground (
        arith,
        opened-emit id opening (relay_suspend_read w),
        opened-emit id session_send (emit opening (relay_suspend_read w)),
      ),
      refl,
    )

-- Resuming a relay that is not suspended makes no call.
pub relay_resume_read-idle :
    (n : ℕ) (w : World)
    → w.relay.session ≡ true
    → w.relay.is_response_read_suspend ≡ false
    → relay_resume_read n w ≡ some w
unfolding relay_resume_read
relay_resume_read-idle n w session e = ground arith
