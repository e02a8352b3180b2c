-- ===== src/Ep/Watch/Refine.antt =====
-- ep.c: a file of the event loop, seen by its owner, behaves as `Watch` says.
use h2_client_proxy.Base.{
  ap, ◌∙◌, ◌⊎◌, ◌&&◌, not, ℕ, ◌<◌, ◌≡◌, Bool, true, false, Option, none, some, refl, arith, length,
  inl, inr, Bool-cases,
}
use h2_client_proxy.Base.Int.{ℤ}
use h2_client_proxy.Ep.Types.{EpBase, Mask, is_some_event}
use h2_client_proxy.Ep.File.{
  fd_info, watch, set_timeout, ep_file_detect, ep_file_get_detect, ep_file_get_timeout,
}
use h2_client_proxy.Ep.File.Mirror.{set_timeout-files, fd_info-set}
use h2_client_proxy.Ep.Watch.{Watch, detect, get_detect, get_timeout}

is_file : Option ℕ → Bool
is_file none = false
is_file (some i) = true

-- What the owner of the file sees of its descriptor.
unfoldable pub owner_view : ℕ → EpBase → Watch
unfolding is_file
owner_view id base =
    let i = fd_info base.files (base.file_at id).fd in
    record { mask = i.mask; is_registered = is_file i.file; timeout = (base.file_at id).timeout }

-- The file has its descriptor, which is in the array, for itself; a descriptor that is watched has
-- its file.
pub record IsOwner (id : ℕ) (base : EpBase) : Type 0 where
  pub inside : (base.file_at id).fd < length base.files
  pub alone :
      ((fd_info base.files (base.file_at id).fd).file ≡ none)
      ⊎ ((fd_info base.files (base.file_at id).fd).file ≡ some id)
  pub watched :
      (is_some_event (fd_info base.files (base.file_at id).fd).mask ≡ false)
      ⊎ ((fd_info base.files (base.file_at id).fd).file ≡ some id)

-- The descriptor's entry after it was watched, changed or let go.
watch-entry :
    (id : ℕ) (what : Mask) (base : EpBase)
    → IsOwner id base
    → not (is_some_event (fd_info base.files (base.file_at id).fd).mask) && not (is_some_event what)
      ≡ false
    → let fd = (base.file_at id).fd in
      let i = fd_info (watch id fd (fd_info base.files fd).mask what base).files fd in
      (i.mask ≡ what) × (is_file i.file ≡ is_some_event what)
unfolding watch is_file
watch-entry id what base o e =
    let fd = (base.file_at id).fd in
    let old = fd_info base.files fd in
    ground (
      arith,
      o.watched,
      fd_info-set base.files fd fd (record { mask = what; file = some id }) o.inside,
      fd_info-set base.files fd fd (record { mask = what; file = none }) o.inside,
      fd_info-set base.files fd fd (record old { mask = what }) o.inside,
    )

watch-file_at :
    (id fd : ℕ) (mask what : Mask) (base : EpBase)
    → (watch id fd mask what base).file_at ≡ base.file_at
unfolding watch
watch-file_at id fd mask what base = ground arith

set_timeout-file_at :
    (ms : ℤ) (id : ℕ) (what : Mask) (timeout : ℤ) (base : EpBase)
    → (((set_timeout ms id what timeout base).file_at id).fd ≡ (base.file_at id).fd)
      × (((set_timeout ms id what timeout base).file_at id).timeout ≡ timeout)
unfolding set_timeout
set_timeout-file_at ms id what timeout base = (ground arith, ground arith)

owner_view-eq :
    (id fd : ℕ) (base : EpBase) (w : Watch)
    → (base.file_at id).fd ≡ fd
    → ((fd_info base.files fd).mask ≡ w.mask)
      × (is_file (fd_info base.files fd).file ≡ w.is_registered)
    → (base.file_at id).timeout ≡ w.timeout
    → owner_view id base ≡ w
unfolding owner_view
owner_view-eq id fd base w f (m, r) t = cc

asked-view :
    (ms : ℤ) (id : ℕ) (what : Mask) (timeout : ℤ) (base : EpBase)
    → IsOwner id base
    → not (is_some_event (fd_info base.files (base.file_at id).fd).mask) && not (is_some_event what)
      ≡ false
    → let fd = (base.file_at id).fd in
      owner_view id
        (set_timeout ms id what timeout (watch id fd (fd_info base.files fd).mask what base))
      ≡ record { mask = what; is_registered = is_some_event what; timeout = timeout }
asked-view ms id what timeout base o e =
    let fd = (base.file_at id).fd in
    let mask = (fd_info base.files fd).mask in
    let b = watch id fd mask what base in
    let s = set_timeout-file_at ms id what timeout b in
    let entry = watch-entry id what base o e in
    let files = set_timeout-files ms timeout id what b in
    owner_view-eq id fd (set_timeout ms id what timeout b)
      (record { mask = what; is_registered = is_some_event what; timeout = timeout })
      (s.0 ∙ ap (λ f. (f id).fd) (watch-file_at id fd mask what base))
      (
        ap (λ is. (fd_info is fd).mask) files ∙ entry.0,
        ap (λ is. is_file (fd_info is fd).file) files ∙ entry.1,
      )
      s.1

-- The owner of a descriptor asks for events: what it then sees is what `detect` makes of what it
-- saw, and the events and the timeout that it is told are those of its view.
pub ep_file_detect-detect :
    (ms : ℤ) (id : ℕ) (what : Mask) (timeout : ℤ) (base : EpBase)
    → IsOwner id base
    → (owner_view id (ep_file_detect ms id what timeout base)
        ≡ detect what timeout (owner_view id base))
      × (ep_file_get_detect id base ≡ get_detect (owner_view id base))
      × (ep_file_get_timeout id base ≡ get_timeout (owner_view id base))
unfolding owner_view ep_file_detect detect ep_file_get_detect ep_file_get_timeout get_detect
    get_timeout is_file
ep_file_detect-detect ms id what timeout base o =
    let fd = (base.file_at id).fd in
    let mask = (fd_info base.files fd).mask in
    (
      elim (Bool-cases (not (is_some_event mask) && not (is_some_event what))) [
        | inl e ↦ rw (ep_file_detect, detect, e) refl
        | inr e ↦ rw (ep_file_detect, detect, e) (asked-view ms id what timeout base o e)
      ],
      ground (arith, o.alone),
      ground (arith, o.alone),
    )
