-- ===== src/Ep/Timer.antt =====
-- ep.c: the list of timers. What `get_ms` returns is the argument `ms`; sums of times do not
-- overflow an int.
pub mod Insert
use h2_client_proxy.Base.{
  ℕ, ◌||◌, Bool, true, false, Option, none, some, List, [], ◌∷◌, ◌++◌, if◌then◌else◌,
}
use h2_client_proxy.Base.Int.{ℤ, pos, negsuc, ◌+ℤ◌, ◌-ℤ◌, ltb_ℤ}
use h2_client_proxy.Ep.Types.{
  EpBase, EpTimer, TimerInfo, Owner, of_timer, of_file, assign, same_owner,
}

-- The time to the first timer of the list, -1 if there is none.
unfoldable pub ep_timer_get_next : ℤ → List TimerInfo → ℤ
ep_timer_get_next ms [] = negsuc 0
ep_timer_get_next ms (tmr ∷ rest) = tmr.timeout_ms -ℤ ms

-- `info->pending`
unfoldable pub is_pending : Owner → List TimerInfo → Bool
is_pending o [] = false
is_pending o (t ∷ ts) = same_owner t.info o || is_pending o ts

-- `list_del` of the info.
unfoldable pub remove_info : Owner → List TimerInfo → List TimerInfo
remove_info o [] = []
remove_info o (t ∷ ts) = if same_owner t.info o then ts else t ∷ remove_info o ts

-- Whether the loop of `ep_timer_info_add` sets `pos_add`: some entry's time exceeds `millsec`.
unfoldable pub has_later : ℤ → List TimerInfo → Bool
has_later millsec [] = false
has_later millsec (t ∷ rest) = ltb_ℤ millsec t.timeout_ms || has_later millsec rest

-- `pos_add` ends up before the last such entry: `list_add` puts the info there. With no such entry
-- `list_add_tail` puts it at the end.
unfoldable pub insert_info : ℤ → TimerInfo → List TimerInfo → List TimerInfo
unfolding has_later
insert_info millsec i [] = i ∷ []
insert_info millsec i (t ∷ rest) =
    let further = t ∷ insert_info millsec i rest in
    if has_later millsec rest
    then further
    else if ltb_ℤ millsec t.timeout_ms
    then i ∷ t ∷ rest
    else further

-- Nothing is done for an info that is pending.
unfoldable pub ep_timer_info_add : ℤ → Owner → ℤ → List TimerInfo → List TimerInfo
unfolding is_pending insert_info
ep_timer_info_add ms o millsec ts =
    if is_pending o ts
    then ts
    else insert_info millsec (record { info = o; timeout_ms = ms +ℤ millsec }) ts

-- Nothing is done for an info that is not pending.
unfoldable pub ep_timer_info_del : Owner → List TimerInfo → List TimerInfo
unfolding remove_info is_pending
ep_timer_info_del o ts = if is_pending o ts then remove_info o ts else ts

unfoldable pub ep_timer_new : ℕ → EpBase → EpBase
ep_timer_new id base = record base {
  timer_at = assign base.timer_at id (record { has_info = false; pending = false });
}

unfoldable pub ep_timer_add : ℤ → ℕ → ℤ → EpBase → EpBase
ep_timer_add ms id millsec base = record base {
  timer_at = assign base.timer_at id (record { has_info = true; pending = true });
  list_timers = ep_timer_info_add ms (of_timer id) millsec base.list_timers;
}

unfoldable pub ep_timer_pending : ℕ → EpBase → Bool
ep_timer_pending id base = (base.timer_at id).pending

unfoldable pub ep_timer_del : ℕ → EpBase → EpBase
ep_timer_del id base = record base {
  timer_at = assign base.timer_at id (record { has_info = false; pending = false });
  list_timers =
      if (base.timer_at id).has_info
      then ep_timer_info_del (of_timer id) base.list_timers
      else base.list_timers;
}

-- The timer itself is freed as well.
unfoldable pub ep_timer_free : ℕ → EpBase → EpBase
ep_timer_free id base = record base {
  list_timers =
      if (base.timer_at id).has_info
      then ep_timer_info_del (of_timer id) base.list_timers
      else base.list_timers;
}
