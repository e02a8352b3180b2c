-- ===== src/Ep/Loop.antt =====
-- ep.c: the timers that are due, `ep_timer_check`, and the rounds of `ep_base_dispatch`. The
-- callbacks are parameters; time stands still while the timers are checked, and what epoll reports
-- is an argument.
pub mod Due
use h2_client_proxy.Base.{
  Outcome, ok, crash, stuck, ◌>>=◌, ℕ, zero, suc, true, Option, none, some, List, [], ◌∷◌,
  if◌then◌else◌,
}
use h2_client_proxy.Base.Int.{ℤ, pos, negsuc, ltb_ℤ}
use h2_client_proxy.Ep.Types.{
  EpBase, TimerInfo, Owner, of_file, of_timer, assign, same_owner, poll_del, poll_wait,
}
use h2_client_proxy.Ep.Timer.{ep_timer_info_add, ep_timer_info_del, ep_timer_get_next}
use h2_client_proxy.Ep.File.{fd_info}

-- EP_TIMEOUT
abbrev ep_timeout : ℕ
ep_timeout = 4

abbrev pub first_owner : List TimerInfo → Option Owner
first_owner [] = none
first_owner (t ∷ ts) = some t.info

-- A timer of the list, and `temp`, the one behind it, none for the head of the list.
unfoldable pub find_info : Owner → List TimerInfo → Option (TimerInfo × Option Owner)
find_info o [] = none
find_info o (t ∷ ts) = if same_owner t.info o then some (t, first_owner ts) else find_info o ts

-- With a timeout of 0 or more the timer of a file is added again.
unfoldable pub renew : ℤ → Option ℕ → EpBase → EpBase
renew ms none base = base
renew ms (some id) base =
    let file = base.file_at id in
    if ltb_ℤ file.timeout (pos 0) then base else record base {
      file_at = assign base.file_at id (record file { has_timer_info = true });
      list_timers = ep_timer_info_add ms (of_file id) file.timeout base.list_timers;
    }

-- How long epoll may wait, -1 for as long as it takes.
unfoldable pub poll_timeout : ℤ → List TimerInfo → ℤ
poll_timeout ms ts =
    let timeout = ep_timer_get_next ms ts in if ltb_ℤ timeout (pos 0) then negsuc 0 else timeout

-- A round of the loop: the times at its start and when the timers are checked, and what epoll
-- reports, descriptors with a mask.
pub record Round : Type 0 where
  pub start : ℤ
  pub check : ℤ
  pub fds : List (ℕ × ℕ)

-- The file and the timer callbacks: the file with what happened, and the timer.
module _ (file_cb : ℕ → ℕ → EpBase → EpBase) (timer_cb : ℕ → EpBase → EpBase) where
  unfoldable pub fire : ℤ → Owner → EpBase → EpBase
  unfolding renew
  fire ms (of_timer id) base = timer_cb id base
  fire ms (of_file id) base =
      let fd = (base.file_at id).fd in
      let base' = file_cb id ep_timeout base in renew ms (fd_info base'.files fd).file base'

  -- The loop, at the timer that was saved. One that is no longer in the list is a crash: its links
  -- are poison, or it is freed. One unit of fuel for each round.
  unfoldable pub check_loop : ℕ → ℤ → Option Owner → EpBase → Outcome EpBase
  unfolding find_info fire
  check_loop zero ms o base = stuck
  check_loop (suc fuel) ms none base = ok base
  check_loop (suc fuel) ms (some o) base = elim (find_info o base.list_timers) [
    | none ↦ crash
    | some found ↦
        let base' = record base { list_timers = ep_timer_info_del o base.list_timers } in
        let rest = check_loop fuel ms found.1 (fire ms o base') in
        if ltb_ℤ ms found.0.timeout_ms then ok base else rest
  ]

  -- -1 if no timer is left.
  unfoldable pub ep_timer_check : ℕ → ℤ → EpBase → Outcome (EpBase × ℤ)
  unfolding check_loop
  ep_timer_check fuel ms base = check_loop fuel ms (first_owner base.list_timers) base >>= λ b.
      ok (b, elim b.list_timers [ [] ↦ negsuc 0 | t ∷ ts ↦ pos 0 ])

  -- The events that epoll reports: a descriptor that no file has is no longer watched.
  unfoldable pub run_events : List (ℕ × ℕ) → EpBase → EpBase
  run_events [] base = base
  run_events ((fd, mask) ∷ fds) base = run_events fds (elim (fd_info base.files fd).file [
    | none ↦ record base { polls = poll_del fd ∷ base.polls }
    | some id ↦ file_cb id mask base
  ])

  -- A round: the call of epoll, the events that it reports, and the timers.
  unfoldable pub run_round : ℕ → Round → EpBase → Outcome EpBase
  unfolding ep_timer_check run_events poll_timeout
  run_round fuel r base =
      let base' = record base {
        polls = poll_wait (poll_timeout r.start base.list_timers) ∷ base.polls;
      } in
      ep_timer_check fuel r.check (run_events r.fds base') >>= λ x. ok x.0

  -- The rounds, until the loop is stopped.
  unfoldable pub ep_base_dispatch : ℕ → List Round → EpBase → Outcome EpBase
  unfolding run_round
  ep_base_dispatch fuel [] base = ok base
  ep_base_dispatch fuel (r ∷ rounds) base =
      run_round fuel r base >>= λ b. if b.is_stop then ok b else ep_base_dispatch fuel rounds b
