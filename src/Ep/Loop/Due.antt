-- ===== src/Ep/Loop/Due.antt =====
-- ep.c: which timers a check fires, and which it misses.
use h2_client_proxy.Base.{
  ok, arith, ℕ, zero, suc, ◌<◌, ◌≡◌, refl, ap, ◌∙◌, true, some, List, [], ◌∷◌, inl, inr, Bool-cases,
  length, if◌then◌else◌,
}
use h2_client_proxy.Base.Int.{ℤ, pos, negsuc, ltb_ℤ, ◌-ℤ◌}
use h2_client_proxy.Ep.Types.{EpBase, TimerInfo, Owner, of_timer}
use h2_client_proxy.Ep.Timer.{ep_timer_info_del, ep_timer_get_next, is_pending, remove_info}
use h2_client_proxy.Ep.Timer.Insert.{same_owner_refl}
use h2_client_proxy.Ep.Loop.{find_info, first_owner, check_loop, ep_timer_check, fire, poll_timeout}

find_first :
    (t : TimerInfo) (ts : List TimerInfo) → find_info t.info (t ∷ ts) ≡ some (t, first_owner ts)
unfolding find_info
find_first t ts = rw (find_info, same_owner_refl t.info) refl

del_first : (t : TimerInfo) (ts : List TimerInfo) → ep_timer_info_del t.info (t ∷ ts) ≡ ts
unfolding ep_timer_info_del is_pending remove_info
del_first t ts = ground (arith, same_owner_refl t.info)

-- The timers of the list, up to the first that is not due, are each a `struct ep_timer` and none the
-- timeout of a file.
pub data DueTimers (ms : ℤ) : List TimerInfo → Type 0 where
  none_left : DueTimers ms []
  none_due :
      (t : TimerInfo) (ts : List TimerInfo) → ltb_ℤ ms t.timeout_ms ≡ true → DueTimers ms (t ∷ ts)
  timer_first :
      (id : ℕ) (t : TimerInfo) (ts : List TimerInfo)
      → t.info ≡ of_timer id
      → DueTimers ms ts
      → DueTimers ms (t ∷ ts)

-- The first timer, if there is one, is not due.
abbrev pub NoneDue : ℤ → List TimerInfo → Type 0
NoneDue ms [] = Unit {0}
NoneDue ms (t ∷ ts) = ltb_ℤ ms t.timeout_ms ≡ true

module _ (file_cb : ℕ → ℕ → EpBase → EpBase) (timer_cb : ℕ → EpBase → EpBase) where
  -- The timers of a list are fired in order, each out of the list, up to the first that is not due.
  unfoldable pub fire_due : ℤ → List TimerInfo → EpBase → EpBase
  fire_due ms [] base = base
  fire_due ms (t ∷ ts) base =
      let rest =
        fire_due ms ts (fire file_cb timer_cb ms t.info (record base { list_timers = ts })) in
      if ltb_ℤ ms t.timeout_ms then base else rest

  module _ (ms : ℤ)
      (quiet : (id : ℕ) (b : EpBase) → (timer_cb id b).list_timers ≡ b.list_timers) where
    fire-list_timers :
        (id : ℕ) (o : Owner) (b : EpBase)
        → o ≡ of_timer id
        → (fire file_cb timer_cb ms o b).list_timers ≡ b.list_timers
    unfolding fire
    fire-list_timers id o b e = rw (e) (quiet id b)

    check_loop-fire_due :
        (fuel : ℕ) (ts : List TimerInfo) (base : EpBase)
        → DueTimers ms ts
        → base.list_timers ≡ ts
        → length ts < fuel
        → check_loop file_cb timer_cb fuel ms (first_owner ts) base ≡ ok (fire_due ms ts base)
    unfolding check_loop fire_due
    check_loop-fire_due zero ts base all e enough = absurd (omega (arith, enough))
    check_loop-fire_due (suc fuel) [] base all e enough = refl
    check_loop-fire_due (suc fuel) (t ∷ ts) base (none_due _ _ wait) e enough =
        let found = ap (find_info t.info) e ∙ find_first t ts in
        rw (check_loop, found) (rw (wait) refl)
    check_loop-fire_due (suc fuel) (t ∷ ts) base (timer_first id _ _ own all) e enough =
        let found = ap (find_info t.info) e ∙ find_first t ts in
        let gone = ap (ep_timer_info_del t.info) e ∙ del_first t ts in
        let next = λ (l : List TimerInfo).
          check_loop file_cb timer_cb fuel ms (first_owner ts)
            (fire file_cb timer_cb ms t.info (record base { list_timers = l })) in
        let after = record base { list_timers = ts } in
        let rest : next ts ≡ ok (fire_due ms ts (fire file_cb timer_cb ms t.info after)) =
          check_loop-fire_due fuel ts (fire file_cb timer_cb ms t.info after) all
            (fire-list_timers id t.info after own) (omega (arith, enough)) in
        rw (check_loop, found)
          (elim (Bool-cases (ltb_ℤ ms t.timeout_ms)) [
            | inl l ↦ rw (l) refl
            | inr l ↦ rw (l) (ap next gone ∙ rest)
          ])

    fire_due-NoneDue :
        (ts : List TimerInfo) (base : EpBase)
        → DueTimers ms ts
        → base.list_timers ≡ ts
        → NoneDue ms (fire_due ms ts base).list_timers
    unfolding fire_due
    fire_due-NoneDue [] base all e = rw (e) tt
    fire_due-NoneDue (t ∷ ts) base (none_due _ _ wait) e = rw (wait, e) wait
    fire_due-NoneDue (t ∷ ts) base (timer_first id _ _ own all) e =
        elim (Bool-cases (ltb_ℤ ms t.timeout_ms)) [
          | inl l ↦ rw (l, e) l
          | inr l ↦
              let after = record base { list_timers = ts } in
              rw (l) (
                fire_due-NoneDue ts (fire file_cb timer_cb ms t.info after) all
                  (fire-list_timers id t.info after own))
        ]

    -- Of the timers in the list, those up to the first that is not due are none of them the timeout of
    -- a file, which is renewed when it fires, and the callbacks of timers leave the list alone: with
    -- more fuel than there are timers, the check ends without a crash. It fires the timers in order, up
    -- to the first that is not due, and the first of those that are left is not due.
    pub ep_timer_check-fire_due :
        (fuel : ℕ) (base : EpBase)
        → DueTimers ms base.list_timers
        → length base.list_timers < fuel
        → let b = fire_due ms base.list_timers base in
          (r : ℤ) × (ep_timer_check file_cb timer_cb fuel ms base ≡ ok (b, r))
          × NoneDue ms b.list_timers
    unfolding ep_timer_check
    ep_timer_check-fire_due fuel base all enough =
        let b = fire_due ms base.list_timers base in
        (
          elim b.list_timers [ [] ↦ negsuc 0 | t ∷ ts ↦ pos 0 ],
          rw (ep_timer_check, check_loop-fire_due fuel base.list_timers base all refl enough) refl,
          fire_due-NoneDue base.list_timers base all refl,
        )

-- If the first timer is overdue when a round starts, epoll may wait for as long as it takes: the
-- timer is not fired until something else happens.
pub overdue_waits :
    (ms : ℤ) (t : TimerInfo) (ts : List TimerInfo)
    → ltb_ℤ t.timeout_ms ms ≡ true
    → poll_timeout ms (t ∷ ts) ≡ negsuc 0
unfolding poll_timeout ep_timer_get_next ◌-ℤ◌
overdue_waits ms t ts e = ground arith
