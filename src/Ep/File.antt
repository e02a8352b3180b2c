-- ===== src/Ep/File.antt =====
-- ep.c: the descriptors that are watched. The array `files` has 1024 entries; an access outside it
-- is not modelled, and what `get_ms` returns is the argument `ms`.
pub mod Mirror
use h2_client_proxy.Base.{
  ℕ, ◌+◌, ◌-◌, ◌&&◌, not, Bool, true, false, Option, none, some, List, [], ◌∷◌, if◌then◌else◌, set,
  get_elem?, replicate,
}
use h2_client_proxy.Base.Int.{ℤ, pos, negsuc, ltb_ℤ}
use h2_client_proxy.Ep.Types.{
  EpBase, EpFile, EpTimer, FdInfo, Mask, no_events, all_events, is_some_event, of_file, assign,
  PollCall, poll_add, poll_mod, poll_del,
}
use h2_client_proxy.Ep.Timer.{ep_timer_info_add, ep_timer_info_del}

abbrev pub no_fd : FdInfo
no_fd = record { mask = no_events; file = none }

-- `base->files[fd]`
abbrev pub fd_info : List FdInfo → ℕ → FdInfo
fd_info files fd = elim (get_elem? files fd) [ none ↦ no_fd | some i ↦ i ]

abbrev pub init_pool_size : ℕ
init_pool_size = 1024

abbrev pub no_file : EpFile
no_file = record { fd = 0; timeout = negsuc 0; has_timer_info = false }

unfoldable pub ep_base_create : EpBase
ep_base_create = record {
  files = replicate init_pool_size no_fd;
  list_timers = [];
  fd_count = 0;
  is_stop = false;
  file_at = λ _. no_file;
  timer_at = λ _. record { has_info = false; pending = false };
  polls = [];
}

unfoldable pub ep_base_stop : EpBase → EpBase
ep_base_stop base = record base { is_stop = true }

-- The new file has the address `id`.
unfoldable pub ep_file_create : ℕ → ℕ → EpBase → EpBase
ep_file_create id fd base = record base {
  file_at = assign base.file_at id (record { fd = fd; timeout = negsuc 0; has_timer_info = false });
  files = set base.files fd (record (fd_info base.files fd) { file = some id });
}

-- -1, which has all bits, if no file is registered for the descriptor.
unfoldable pub ep_file_get_detect : ℕ → EpBase → Mask
ep_file_get_detect id base =
    let i = fd_info base.files (base.file_at id).fd in
    elim i.file [ none ↦ all_events | some _ ↦ i.mask ]

unfoldable pub ep_file_get_timeout : ℕ → EpBase → ℤ
ep_file_get_timeout id base = elim (fd_info base.files (base.file_at id).fd).file [
  | none ↦ negsuc 0
  | some file ↦ (base.file_at file).timeout
]

-- The descriptor's entry, the number of descriptors and the call of epoll.
unfoldable pub watch : ℕ → ℕ → Mask → Mask → EpBase → EpBase
watch id fd mask what base =
    if not (is_some_event mask)
    then record base {
      files = set base.files fd (record { mask = what; file = some id });
      fd_count = base.fd_count + 1;
      polls = poll_add fd what ∷ base.polls;
    }
    else if not (is_some_event what)
    then record base {
      files = set base.files fd (record { mask = what; file = none });
      fd_count = base.fd_count - 1;
      polls = poll_del fd ∷ base.polls;
    }
    else record base {
      files = set base.files fd (record (fd_info base.files fd) { mask = what });
      polls = poll_mod fd what ∷ base.polls;
    }

-- The timeout of the file.
unfoldable pub set_timeout : ℤ → ℕ → Mask → ℤ → EpBase → EpBase
set_timeout ms id what timeout base =
    let ev = base.file_at id in
    if not (ltb_ℤ timeout (pos 0)) && is_some_event what
    then record base {
      file_at = assign base.file_at id (record ev { timeout = timeout; has_timer_info = true });
      list_timers =
          ep_timer_info_add ms (of_file id) timeout
            (ep_timer_info_del (of_file id) base.list_timers);
    }
    else record base {
      file_at = assign base.file_at id (record ev { timeout = timeout });
      list_timers =
          if ev.has_timer_info
          then ep_timer_info_del (of_file id) base.list_timers
          else base.list_timers;
    }

unfoldable pub ep_file_detect : ℤ → ℕ → Mask → ℤ → EpBase → EpBase
unfolding watch set_timeout
ep_file_detect ms id what timeout base =
    let fd = (base.file_at id).fd in
    let mask = (fd_info base.files fd).mask in
    if not (is_some_event mask) && not (is_some_event what)
    then base
    else set_timeout ms id what timeout (watch id fd mask what base)

-- The timer info is unlinked and freed, and the file freed at the end.
unfoldable pub ep_file_free : ℤ → ℕ → EpBase → EpBase
ep_file_free ms id base =
    let ev = base.file_at id in
    ep_file_detect ms id no_events (negsuc 0) (record base {
      file_at = assign base.file_at id (record ev { has_timer_info = false });
      list_timers =
          if ev.has_timer_info
          then ep_timer_info_del (of_file id) base.list_timers
          else base.list_timers;
    })
