-- ===== src/Ep/Timer/Insert.antt =====
-- ep.c: where `ep_timer_info_add` puts a timer.
use h2_client_proxy.Base.{◌≡◌, ◌||◌, true, false, List, [], ◌∷◌, ◌++◌, refl, arith}
use h2_client_proxy.Base.Int.{ℤ, ltb_ℤ, ◌+ℤ◌}
use h2_client_proxy.Ep.Types.{TimerInfo, Owner, same_owner, of_file, of_timer}
use h2_client_proxy.Ep.Timer.{
  insert_info, has_later, is_pending, remove_info, ep_timer_info_add, ep_timer_info_del,
}

-- The time of every timer exceeds `millsec`.
abbrev pub AllLater : ℤ → List TimerInfo → Type 0
AllLater millsec [] = Unit {0}
AllLater millsec (t ∷ ts) = (ltb_ℤ millsec t.timeout_ms ≡ true) × AllLater millsec ts

insert_info-later :
    (millsec : ℤ) (i t : TimerInfo) (ts : List TimerInfo)
    → ltb_ℤ millsec t.timeout_ms ≡ true
    → insert_info millsec i (ts ++ t ∷ []) ≡ ts ++ i ∷ t ∷ []
unfolding insert_info has_later
insert_info-later millsec i t [] e = ground arith
insert_info-later millsec i t (s ∷ ts) e =
    ground (arith, insert_info-later millsec i t ts e, last_later ts)
  where
    last_later : (xs : List TimerInfo) → has_later millsec (xs ++ t ∷ []) ≡ true
    last_later [] = ground arith
    last_later (x ∷ xs) = ground (arith, last_later xs)

-- The comparison is of a time of day with a duration. Where the time of the last timer exceeds
-- `millsec`, as on a clock that shows more than the durations in use, a new timer is put right
-- before the last one, whatever the time at which it is due.
pub ep_timer_info_add-before_last :
    (ms millsec : ℤ) (o : Owner) (t : TimerInfo) (ts : List TimerInfo)
    → is_pending o (ts ++ t ∷ []) ≡ false
    → ltb_ℤ millsec t.timeout_ms ≡ true
    → ep_timer_info_add ms o millsec (ts ++ t ∷ [])
      ≡ ts ++ record { info = o; timeout_ms = ms +ℤ millsec } ∷ t ∷ []
unfolding ep_timer_info_add
ep_timer_info_add-before_last ms millsec o t ts p e =
    rw p (insert_info-later millsec (record { info = o; timeout_ms = ms +ℤ millsec }) t ts e)

pub same_owner_refl : (o : Owner) → same_owner o o ≡ true
same_owner_refl (of_file i) = ground arith
same_owner_refl (of_timer i) = ground arith

insert_info-is_pending :
    (millsec : ℤ) (i : TimerInfo) (o : Owner) (ts : List TimerInfo)
    → is_pending o (insert_info millsec i ts) ≡ (same_owner i.info o || is_pending o ts)
unfolding insert_info is_pending
insert_info-is_pending millsec i o [] = refl
insert_info-is_pending millsec i o (t ∷ ts) = ground (arith, insert_info-is_pending millsec i o ts)

-- A timer that was not pending is pending once it is added, and the others are as before.
pub ep_timer_info_add-is_pending :
    (ms millsec : ℤ) (o k : Owner) (ts : List TimerInfo)
    → is_pending o ts ≡ false
    → is_pending k (ep_timer_info_add ms o millsec ts) ≡ (same_owner o k || is_pending k ts)
unfolding ep_timer_info_add
ep_timer_info_add-is_pending ms millsec o k ts e =
    rw e (insert_info-is_pending millsec (record { info = o; timeout_ms = ms +ℤ millsec }) k ts)

insert_info-remove_info :
    (millsec : ℤ) (i : TimerInfo) (ts : List TimerInfo)
    → is_pending i.info ts ≡ false
    → remove_info i.info (insert_info millsec i ts) ≡ ts
unfolding insert_info is_pending remove_info
insert_info-remove_info millsec i [] e = ground (arith, same_owner_refl i.info)
insert_info-remove_info millsec i (t ∷ ts) e =
    ground (arith, insert_info-remove_info millsec i ts, same_owner_refl i.info)

-- Deleting a timer that was just added leaves the list as it was before.
pub ep_timer_info_del-ep_timer_info_add :
    (ms millsec : ℤ) (o : Owner) (ts : List TimerInfo)
    → is_pending o ts ≡ false
    → ep_timer_info_del o (ep_timer_info_add ms o millsec ts) ≡ ts
unfolding ep_timer_info_add ep_timer_info_del
ep_timer_info_del-ep_timer_info_add ms millsec o ts e = ground (
  arith,
  insert_info-remove_info millsec (record { info = o; timeout_ms = ms +ℤ millsec }) ts,
  insert_info-is_pending millsec (record { info = o; timeout_ms = ms +ℤ millsec }) o ts,
  same_owner_refl o,
)
