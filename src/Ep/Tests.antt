-- ===== src/Ep/Tests.antt =====
-- Runs of the event loop's lists.
use h2_client_proxy.Base.{
  map, has_bit, false, some, true, ok, inl, inr, ℕ, ◌≡◌, refl, [], ◌∷◌, arith,
}
use h2_client_proxy.Base.Int.{negsuc, ℤ, pos, ◌+ℤ◌}
use h2_client_proxy.Ep.Types.{of_file, EpBase, TimerInfo, of_timer, ep_read, no_events}
use h2_client_proxy.Ep.Timer.{ep_timer_info_add, ep_timer_info_del, is_pending}
use h2_client_proxy.Ep.Timer.Insert.{
  ep_timer_info_add-before_last, ep_timer_info_del-ep_timer_info_add,
}
use h2_client_proxy.Ep.File.{
  ep_base_stop, set_timeout, watch, ep_file_get_detect, ep_file_get_timeout, ep_base_create,
  ep_file_create, ep_file_detect, fd_info,
}
use h2_client_proxy.Ep.Watch.{detect, get_detect, get_timeout}
use h2_client_proxy.Ep.Watch.Refine.{owner_view, ep_file_detect-detect}
use h2_client_proxy.Ep.File.Mirror.{
  Mirrors, ep_base_create-Mirrors, ep_file_create-Mirrors, ep_file_detect-Mirrors,
  ep_file_detect-mask,
}
use h2_client_proxy.Ep.Loop.{run_events, ep_timer_check}
use h2_client_proxy.Ep.Loop.Due.{fire_due, NoneDue, ep_timer_check-fire_due, timer_first, none_due}
use h2_client_proxy.Ep.Poll.{
  EpollEvent, IsAsked, interest, system_call, ep_poll_add, ep_poll_dispatch,
}
use h2_client_proxy.Ep.Poll.Watched.{Watched, reported_event}
use h2_client_proxy.Ep.Poll.Files.{
  ep_file_detect-Watched, ep_file_create-Watched, ep_base_create-Watched,
}

abbrev at : ℕ → ℕ → TimerInfo
at id ms = record { info = of_timer id; timeout_ms = pos ms }

-- At 5000 a timer of 900 is put before one that is due at 5100.
ep_timer_info_add-before_last_example :
    ep_timer_info_add (pos 5000) (of_timer 3) (pos 900) (at 1 5050 ∷ at 2 5100 ∷ [])
    ≡ at 1 5050 ∷ at 3 5900 ∷ at 2 5100 ∷ []
unfolding is_pending ◌+ℤ◌
ep_timer_info_add-before_last_example =
    ep_timer_info_add-before_last (pos 5000) (pos 900) (of_timer 3) (at 2 5100) (at 1 5050 ∷ [])
      refl refl

ep_timer_info_del-ep_timer_info_add_example :
    ep_timer_info_del
      (of_timer 3)
      (ep_timer_info_add (pos 5000) (of_timer 3) (pos 900) (at 1 5050 ∷ []))
    ≡ at 1 5050 ∷ []
unfolding is_pending
ep_timer_info_del-ep_timer_info_add_example =
    ep_timer_info_del-ep_timer_info_add (pos 5000) (pos 900) (of_timer 3) (at 1 5050 ∷ []) refl

abbrev listening : EpBase
listening = ep_file_create 1 7 ep_base_create

ep_file_detect-Mirrors_example : Mirrors (ep_file_detect (pos 0) 1 ep_read (pos 30) listening)
unfolding ep_file_create ep_base_create
ep_file_detect-Mirrors_example =
    ep_file_detect-Mirrors (pos 0) 1 ep_read (pos 30) listening (omega arith)
      (ep_file_create-Mirrors 1 7 ep_base_create (omega arith) ep_base_create-Mirrors)

ep_file_detect-mask_example :
    (fd_info (ep_file_detect (pos 0) 1 ep_read (pos 30) listening).files 7).mask ≡ ep_read
unfolding ep_file_create ep_base_create
ep_file_detect-mask_example =
    ep_file_detect-mask (pos 0) 1 ep_read (pos 30) listening (omega arith)
      (ep_file_create-Mirrors 1 7 ep_base_create (omega arith) ep_base_create-Mirrors)

ep_file_detect-detect_example :
    (owner_view 1 (ep_file_detect (pos 0) 1 ep_read (pos 30) listening)
      ≡ detect ep_read (pos 30) (owner_view 1 listening))
    × (ep_file_get_detect 1 listening ≡ get_detect (owner_view 1 listening))
    × (ep_file_get_timeout 1 listening ≡ get_timeout (owner_view 1 listening))
unfolding ep_file_create ep_base_create
ep_file_detect-detect_example =
    ep_file_detect-detect (pos 0) 1 ep_read (pos 30) listening
      (record { inside = omega arith; alone = inr refl; watched = inl refl })

-- A file that watches for nothing more, and a timer that stops the loop when it fires.
abbrev closing : ℕ → ℕ → EpBase → EpBase
closing id mask base = ep_file_detect (pos 10) id no_events (negsuc 0) base

abbrev stopping : ℕ → EpBase → EpBase
stopping id base = ep_base_stop base

stopping-list_timers : (id : ℕ) (b : EpBase) → (stopping id b).list_timers ≡ b.list_timers
unfolding ep_base_stop
stopping-list_timers id b = refl

-- The timeout of a file, which is not due yet.
abbrev of_client : TimerInfo
of_client = record { info = of_file 9; timeout_ms = pos 20 }

abbrev two_timers : EpBase
two_timers = record ep_base_create { list_timers = at 1 5 ∷ at 2 8 ∷ of_client ∷ [] }

ep_timer_check-fire_due_example :
    let b = fire_due closing stopping (pos 10) two_timers.list_timers two_timers in
    (r : ℤ) × (ep_timer_check closing stopping 4 (pos 10) two_timers ≡ ok (b, r))
    × NoneDue (pos 10) b.list_timers
ep_timer_check-fire_due_example =
    ep_timer_check-fire_due closing stopping (pos 10) stopping-list_timers 4 two_timers
      (timer_first 1 (at 1 5) (at 2 8 ∷ of_client ∷ []) refl
        (timer_first 2 (at 2 8) (of_client ∷ []) refl (none_due of_client [] refl)))
      (omega arith)

abbrev one_timer : EpBase
one_timer = record ep_base_create { list_timers = at 1 5050 ∷ [] }

abbrev watching : EpBase
watching = ep_file_detect (pos 0) 1 ep_read (negsuc 0) listening

watching-Watched : Watched watching
unfolding ep_file_create ep_base_create
watching-Watched =
    ep_file_detect-Watched (pos 0) 1 ep_read (negsuc 0) listening (omega arith)
      (ep_file_create-Watched 1 7 ep_base_create (omega arith) ep_base_create-Watched)

-- Something to read, and a hang-up.
abbrev readable : EpollEvent
readable = record {
  fd = 7;
  events = record { epollin = true; epollout = false; epollerr = false; epollhup = true };
}

readable-IsAsked : IsAsked (map system_call watching.polls) readable
unfolding ep_file_detect watch set_timeout system_call ep_poll_add ep_file_create ep_base_create
readable-IsAsked = record {
  wanted = interest ep_read;
  is_wanted = refl;
  in_wanted = λ e. refl;
  out_wanted = λ e. cc;
}

-- A file that leaves the loop as it is.
abbrev look : ℕ → ℕ → EpBase → EpBase
look id mask base = base

abbrev no_timer : ℕ → EpBase → EpBase
no_timer id base = base

reported_event_example :
    (id mask : ℕ) × (run_events look no_timer (ep_poll_dispatch (some (readable ∷ []))) watching
      ≡ watching)
    × ((fd_info watching.files 7).file ≡ some id)
    × (has_bit 1 mask ≡ true)
    × (has_bit 2 mask ≡ false)
    × (has_bit 4 mask ≡ false)
    × (has_bit 8 mask ≡ true)
    × (true ≡ true → (fd_info watching.files 7).mask.read ≡ true)
    × (false ≡ true → (fd_info watching.files 7).mask.write ≡ true)
reported_event_example =
    reported_event look no_timer watching readable watching-Watched readable-IsAsked
