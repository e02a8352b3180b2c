-- ===== src/Ep/Poll/Rounds.antt =====
-- ep.c: the rounds of `ep_base_dispatch` over epoll keep the masks, the files and epoll in step.
use h2_client_proxy.Base.{
  ℕ, zero, suc, ◌≡◌, refl, sym, arith, Bool, true, false, Option, none, some, List, [], ◌∷◌, map,
  if◌then◌else◌, inl, inr, Bool-cases, Option-cases, Outcome, ok, crash, stuck, ◌>>=◌,
}
use h2_client_proxy.Base.Int.{ℤ, pos, ltb_ℤ}
use h2_client_proxy.Ep.Types.{EpBase, Owner, of_file, of_timer, poll_wait}
use h2_client_proxy.Ep.Timer.{ep_timer_info_del}
use h2_client_proxy.Ep.Poll.Held.{Held, same-Held, waited-Held, placed-assign}
use h2_client_proxy.Ep.Loop.{
  fire, renew, find_info, check_loop, ep_timer_check, run_events, run_round, ep_base_dispatch,
  first_owner, poll_timeout,
}
use h2_client_proxy.Ep.Poll.{EpollEvent, ep_poll_dispatch, system_call, Honest, round_of, Report}
use h2_client_proxy.Ep.Poll.Watched.{reported_event}

-- What holds of a result, if there is one.
abbrev IfWatched : Outcome EpBase → Type 0
IfWatched (ok b) = Held b
IfWatched crash = Unit {0}
IfWatched stuck = Unit {0}

renew-Watched : (ms : ℤ) (o : Option ℕ) (base : EpBase) → Held base → Held (renew ms o base)
unfolding renew
renew-Watched ms none base v = v
renew-Watched ms (some id) base v = elim (Bool-cases (ltb_ℤ (base.file_at id).timeout (pos 0))) [
  | inl t ↦ rw (t) v
  | inr f ↦ rw (f) (same-Held base _ refl refl refl (placed-assign base.file_at id _ refl) v)
]

abbrev closing : (EpBase → ℤ) → EpBase → Outcome (EpBase × ℤ)
closing f b = ok (b, f b)

-- What is left to do in a round changes nothing.
finished-Watched :
    (o : Outcome EpBase) (f : EpBase → ℤ)
    → IfWatched o
    → IfWatched (o >>= closing f >>= (λ x. ok x.0))
finished-Watched (ok b) f v = v
finished-Watched crash f v = tt
finished-Watched stuck f v = tt

-- A result that is good, and what is made of it.
then-Watched :
    (o : Outcome EpBase) (k : EpBase → Outcome EpBase) (b : EpBase)
    → IfWatched o
    → ((x : EpBase) → o ≡ ok x → Held x → k x ≡ ok b → Held b)
    → (o >>= k) ≡ ok b
    → Held b
then-Watched (ok x) k b v next e = next x refl v e
then-Watched crash k b v next e = cc
then-Watched stuck k b v next e = cc

ok_same : (a b : EpBase) → ok a ≡ ok b → Held a → Held b
ok_same a b e v = let same : a ≡ b = cc in rw (sym same) v

stop_or_go :
    (s : Bool) (x b : EpBase) (o : Outcome EpBase)
    → Held x
    → (o ≡ ok b → Held b)
    → (if s then ok x else o) ≡ ok b
    → Held b
stop_or_go true x b o v next e = ok_same x b e v
stop_or_go false x b o v next e = next e

-- Callbacks that keep a base that is held.
module _ (file_cb : ℕ → ℕ → EpBase → EpBase) (timer_cb : ℕ → EpBase → EpBase)
    (file_keeps : (id mask : ℕ) (b : EpBase) → Held b → Held (file_cb id mask b))
    (timer_keeps : (id : ℕ) (b : EpBase) → Held b → Held (timer_cb id b)) where
  fire-Watched :
      (ms : ℤ) (o : Owner) (base : EpBase) → Held base → Held (fire file_cb timer_cb ms o base)
  unfolding fire
  fire-Watched ms (of_timer id) base v = timer_keeps id base v
  fire-Watched ms (of_file id) base v = renew-Watched ms _ _ (file_keeps id 4 base v)

  check_loop-Watched :
      (fuel : ℕ) (ms : ℤ) (o : Option Owner) (base : EpBase)
      → Held base
      → IfWatched (check_loop file_cb timer_cb fuel ms o base)
  unfolding check_loop
  check_loop-Watched zero ms o base v = tt
  check_loop-Watched (suc fuel) ms none base v = v
  check_loop-Watched (suc fuel) ms (some o) base v =
      elim (Option-cases (find_info o base.list_timers)) [
        | inl e ↦ rw (check_loop, e) tt
        | inr (found, e) ↦
            let base' = record base { list_timers = ep_timer_info_del o base.list_timers } in
            let rest =
              check_loop-Watched fuel ms found.1 (fire file_cb timer_cb ms o base')
                (fire-Watched ms o base' (same-Held base base' refl refl refl (λ id. refl) v)) in
            rw (check_loop, e)
              (elim (Bool-cases (ltb_ℤ ms found.0.timeout_ms)) [
                | inl l ↦ rw (l) v
                | inr l ↦ rw (l) rest
              ])
      ]

  run_events-Watched :
      (base : EpBase) (reports : Option (List EpollEvent))
      → Held base
      → Honest (map system_call base.polls) reports
      → Held (run_events file_cb timer_cb (ep_poll_dispatch reports) base)
  unfolding run_events ep_poll_dispatch
  run_events-Watched base none v h = v
  run_events-Watched base (some []) v h = v
  run_events-Watched base (some (e ∷ [])) v h =
      let (id, mask, runs, owner, is_in, is_out, no_timeout, failed, reads, writes) =
        reported_event file_cb timer_cb base e v.watched h.1.0 in
      rw (runs) (file_keeps id mask base v)
  run_events-Watched base (some (e ∷ d ∷ es)) v h = absurd (omega (arith, h.0))

  run_round-Watched :
      (fuel : ℕ) (r : Report) (base : EpBase)
      → Held base
      → Honest
          (map system_call (poll_wait (poll_timeout r.start base.list_timers) ∷ base.polls))
          r.reports
      → IfWatched (run_round file_cb timer_cb fuel (round_of r) base)
  unfolding run_round ep_timer_check
  run_round-Watched fuel r base v h =
      let timeout = poll_timeout r.start base.list_timers in
      let base1 = record base { polls = poll_wait timeout ∷ base.polls } in
      let base2 = run_events file_cb timer_cb (ep_poll_dispatch r.reports) base1 in
      let kept = run_events-Watched base1 r.reports (waited-Held base timeout v) h in
      finished-Watched
        (check_loop file_cb timer_cb fuel r.check (first_owner base2.list_timers) base2) _
        (check_loop-Watched fuel r.check (first_owner base2.list_timers) base2 kept)

  -- epoll is honest in each round, whatever the rounds before it made of the loop.
  abbrev pub AllHonest : ℕ → List Report → EpBase → Type 0
  AllHonest fuel [] base = Unit {0}
  AllHonest fuel (r ∷ rs) base =
      Honest (map system_call (poll_wait (poll_timeout r.start base.list_timers) ∷ base.polls))
        r.reports
      × ((b : EpBase)
          → run_round file_cb timer_cb fuel (round_of r) base ≡ ok b
          → AllHonest fuel rs b)

  -- A base is held if the events that epoll watches are those of the masks, epoll was never asked to
  -- add a descriptor twice nor to change or delete one that it does not watch, each descriptor that is
  -- watched has its file, the array has its 1024 entries and no file has a descriptor behind them.
  -- For callbacks that keep a held base held, as the making, the watching and the freeing of a file in
  -- the array do, over an epoll that reports at most the one event that there is room for, and only
  -- what was asked for on a descriptor: where the loop returns, after any rounds and timers, a base
  -- that was held is held.
  pub ep_base_dispatch-Watched :
      (fuel : ℕ) (rs : List Report) (base b : EpBase)
      → Held base
      → AllHonest fuel rs base
      → ep_base_dispatch file_cb timer_cb fuel (map round_of rs) base ≡ ok b
      → Held b
  unfolding ep_base_dispatch
  ep_base_dispatch-Watched fuel [] base b v h e = ok_same base b e v
  ep_base_dispatch-Watched fuel (r ∷ rs) base b v h e =
      then-Watched (run_round file_cb timer_cb fuel (round_of r) base)
        (λ x.
          if x.is_stop then ok x else ep_base_dispatch file_cb timer_cb fuel (map round_of rs) x)
        b (run_round-Watched fuel r base v h.0)
        (λ x runs kept.
          stop_or_go x.is_stop x b (ep_base_dispatch file_cb timer_cb fuel (map round_of rs) x) kept
            (ep_base_dispatch-Watched fuel rs x b kept (h.1 x runs)))
        e
