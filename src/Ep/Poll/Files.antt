-- ===== src/Ep/Poll/Files.antt =====
-- ep.c: the operations on files keep a file for each descriptor that is watched.
use h2_client_proxy.Base.{
  ℕ, set, ◌<◌, ◌==◌, ◌&&◌, not, ◌≡◌, refl, arith, true, false, none, some, length, if◌then◌else◌,
  inl, inr, Bool-cases,
}
use h2_client_proxy.Base.Int.{ℤ, negsuc}
use h2_client_proxy.Ep.Types.{EpBase, assign, of_file, FdInfo, Mask, no_events, is_some_event}
use h2_client_proxy.Ep.Timer.{ep_timer_info_del}
use h2_client_proxy.Ep.File.{
  fd_info, watch, ep_file_detect, ep_file_create, ep_base_create, ep_file_free, init_pool_size,
}
use h2_client_proxy.Ep.File.Mirror.{
  fd_info-set, set_timeout-files, ep_file_detect-Mirrors, ep_file_create-Mirrors,
  ep_base_create-Mirrors, fd_info-replicate,
}
use h2_client_proxy.Ep.Poll.Watched.{Watched, same-Watched}

-- An entry of the array with events has a file.
abbrev Owned : FdInfo → Type 0
Owned i = is_some_event i.mask ≡ true → (id : ℕ) × (i.file ≡ some id)

module _ (id fd : ℕ) (what : Mask) (base : EpBase) (inside : fd < length base.files)
    (owned : (j : ℕ) → Owned (fd_info base.files j)) where
  set-Owned : (x : FdInfo) (j : ℕ) → Owned x → Owned (fd_info (set base.files fd x) j)
  set-Owned x j o =
      rw (fd_info-set base.files fd j x inside)
        (elim (Bool-cases (fd == j)) [ inl t ↦ rw (t) o | inr f ↦ rw (f) (owned j) ])

  watch-Owned :
      (j : ℕ) → Owned (fd_info (watch id fd (fd_info base.files fd).mask what base).files j)
  unfolding watch
  watch-Owned j =
      let old = fd_info base.files fd in
      let added : FdInfo = record { mask = what; file = some id } in
      let gone : FdInfo = record { mask = what; file = none } in
      let changed : FdInfo = record old { mask = what } in
      elim (Bool-cases (is_some_event old.mask)) [
        | inr f ↦ rw (f) (set-Owned added j (λ _. (id, refl)))
        | inl t ↦ elim (Bool-cases (is_some_event what)) [
          | inr f ↦ rw (t, f) (set-Owned gone j (λ e. cc))
          | inl w ↦ rw (t, w) (set-Owned changed j (λ _. owned fd t))
        ]
      ]

-- A file that asks for events, or for none, keeps the base in step with epoll, and its descriptor with
-- a file as long as it is watched.
pub ep_file_detect-Watched :
    (ms : ℤ) (id : ℕ) (what : Mask) (timeout : ℤ) (base : EpBase)
    → (base.file_at id).fd < length base.files
    → Watched base
    → Watched (ep_file_detect ms id what timeout base)
unfolding ep_file_detect
ep_file_detect-Watched ms id what timeout base inside v = record {
  mirrors = ep_file_detect-Mirrors ms id what timeout base inside v.mirrors;
  owned = λ j.
      let fd = (base.file_at id).fd in
      let mask = (fd_info base.files fd).mask in
      elim (Bool-cases (not (is_some_event mask) && not (is_some_event what))) [
        | inl e ↦ rw (e) (v.owned j)
        | inr e ↦
            rw (e, set_timeout-files ms timeout id what (watch id fd mask what base))
              (watch-Owned id fd what base inside v.owned j)
      ];
}

pub ep_file_create-Watched :
    (id fd : ℕ) (base : EpBase)
    → fd < length base.files
    → Watched base
    → Watched (ep_file_create id fd base)
unfolding ep_file_create
ep_file_create-Watched id fd base inside v = record {
  mirrors = ep_file_create-Mirrors id fd base inside v.mirrors;
  owned = λ j.
      set-Owned id fd no_events base inside v.owned
        (record (fd_info base.files fd) { file = some id }) j (λ _. (id, refl));
}

pub ep_base_create-Watched : Watched ep_base_create
unfolding ep_base_create
ep_base_create-Watched = record {
  mirrors = ep_base_create-Mirrors;
  owned = λ j. rw (fd_info-replicate init_pool_size j) (λ e. cc);
}

pub ep_file_free-Watched :
    (ms : ℤ) (id : ℕ) (base : EpBase)
    → (base.file_at id).fd < length base.files
    → Watched base
    → Watched (ep_file_free ms id base)
unfolding ep_file_free
ep_file_free-Watched ms id base inside v =
    let ev = base.file_at id in
    let base1 = record base {
      file_at = assign base.file_at id (record ev { has_timer_info = false });
      list_timers =
          if ev.has_timer_info
          then ep_timer_info_del (of_file id) base.list_timers
          else base.list_timers;
    } in
    let self : id == id ≡ true = ground arith in
    ep_file_detect-Watched ms id no_events (negsuc 0) base1 (rw (self) inside)
      (same-Watched base base1 refl refl refl v)
