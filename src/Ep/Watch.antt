-- ===== src/Ep/Watch.antt =====
-- ep.c as the owner of one file sees it: the events asked for, whether the file is registered for
-- its descriptor, and its timeout.
pub mod Refine
use h2_client_proxy.Base.{◌&&◌, not, Bool, true, if◌then◌else◌}
use h2_client_proxy.Base.Int.{ℤ, negsuc}
use h2_client_proxy.Ep.Types.{Mask, no_events, all_events, is_some_event}

pub record Watch : Type 0 where
  pub mask : Mask
  pub is_registered : Bool
  pub timeout : ℤ

-- After `ep_file_create`.
abbrev pub watch_new : Watch
watch_new = record { mask = no_events; is_registered = true; timeout = negsuc 0 }

-- `ep_file_detect`: a file that asks for events is registered, one that asks for none is not.
unfoldable pub detect : Mask → ℤ → Watch → Watch
detect what timeout w =
    if not (is_some_event w.mask) && not (is_some_event what)
    then w
    else record { mask = what; is_registered = is_some_event what; timeout = timeout }

-- `ep_file_get_detect` and `ep_file_get_timeout`.
unfoldable pub get_detect : Watch → Mask
get_detect w = if w.is_registered then w.mask else all_events

unfoldable pub get_timeout : Watch → ℤ
get_timeout w = if w.is_registered then w.timeout else negsuc 0
