-- ===== src/Server/Files.antt =====
-- ep.c: what the loop knows of a descriptor after a file was made for it and watched.
use h2_client_proxy.Base.{
  ℕ, ◌<◌, ◌==◌, ◌&&◌, not, ◌≡◌, sym, ap, ◌∙◌, arith, true, false, none, some, List, if◌then◌else◌,
  length, inl, inr, Bool-cases,
}
use h2_client_proxy.Base.Int.{ℤ, pos, ltb_ℤ}
use h2_client_proxy.Ep.Types.{EpBase, FdInfo, TimerInfo, Mask, Owner, of_file, is_some_event}
use h2_client_proxy.Ep.Timer.{is_pending, ep_timer_info_add, ep_timer_info_del}
use h2_client_proxy.Ep.Timer.Insert.{ep_timer_info_add-is_pending, same_owner_refl}
use h2_client_proxy.Ep.File.{fd_info, watch, set_timeout, ep_file_create, ep_file_detect}
use h2_client_proxy.Ep.File.Mirror.{fd_info-set, set_timeout-files}
use h2_client_proxy.Ep.Poll.Watched.{Watched}
use h2_client_proxy.Ep.Poll.Held.{length-set, watch_room}
use h2_client_proxy.Ep.Poll.Files.{ep_file_detect-Watched, ep_file_create-Watched}
use h2_client_proxy.Server.{open_file}

-- A descriptor has its file, which watches it; the others are as they were.
pub record Opened (id fd : ℕ) (what : Mask) (base base' : EpBase) : Type 0 where
  pub watched : Watched base'
  pub room : length base'.files ≡ length base.files
  pub entry : fd_info base'.files fd ≡ record { mask = what; file = some id }
  pub others : (j : ℕ) → fd == j ≡ false → fd_info base'.files j ≡ fd_info base.files j

-- A descriptor that has a file is watched for some events.
watch_entry :
    (id fd : ℕ) (what : Mask) (base : EpBase)
    → fd < length base.files
    → (fd_info base.files fd).file ≡ some id
    → is_some_event what ≡ true
    → fd_info (watch id fd (fd_info base.files fd).mask what base).files fd
      ≡ record { mask = what; file = some id }
unfolding watch
watch_entry id fd what base inside own w = ground (
  arith,
  own,
  fd_info-set base.files fd fd (record { mask = what; file = some id }) inside,
  fd_info-set base.files fd fd (record (fd_info base.files fd) { mask = what }) inside,
)

watch_others :
    (id fd : ℕ) (what : Mask) (base : EpBase) (j : ℕ)
    → fd < length base.files
    → fd == j ≡ false
    → fd_info (watch id fd (fd_info base.files fd).mask what base).files j ≡ fd_info base.files j
unfolding watch
watch_others id fd what base j inside e = ground (
  arith,
  fd_info-set base.files fd j (record { mask = what; file = some id }) inside,
  fd_info-set base.files fd j (record { mask = what; file = none }) inside,
  fd_info-set base.files fd j (record (fd_info base.files fd) { mask = what }) inside,
)

-- The entries after a file asks for some events.
detect-files :
    (ms : ℤ) (id : ℕ) (what : Mask) (timeout : ℤ) (base : EpBase)
    → is_some_event what ≡ true
    → let fd = (base.file_at id).fd in
      (ep_file_detect ms id what timeout base).files
      ≡ (watch id fd (fd_info base.files fd).mask what base).files
unfolding ep_file_detect
detect-files ms id what timeout base w =
    let fd = (base.file_at id).fd in
    let mask = (fd_info base.files fd).mask in
    let some_event : not (is_some_event mask) && not (is_some_event what) ≡ false = ground arith in
    rw (some_event) (set_timeout-files ms timeout id what (watch id fd mask what base))

info_add-is_pending :
    (ms timeout : ℤ) (o : Owner) (ts : List TimerInfo)
    → is_pending o (ep_timer_info_add ms o timeout ts) ≡ true
unfolding ep_timer_info_add
info_add-is_pending ms timeout o ts = elim (Bool-cases (is_pending o ts)) [
  | inl t ↦ rw (t) t
  | inr f ↦ ground (arith, ep_timer_info_add-is_pending ms timeout o o ts f, same_owner_refl o)
]

module _ (ms : ℤ) (id fd : ℕ) (what : Mask) (timeout : ℤ) (base : EpBase)
    (inside : fd < length base.files) (v : Watched base) where
  abbrev made : EpBase
  made = ep_file_create id fd base

  made_fd : (made.file_at id).fd ≡ fd
  unfolding ep_file_create
  made_fd = ground arith

  made_room : length made.files ≡ length base.files
  unfolding ep_file_create
  made_room = length-set base.files fd (record (fd_info base.files fd) { file = some id })

  made_inside : (made.file_at id).fd < length made.files
  made_inside = omega (arith, made_fd, made_room, inside)

  made_entry :
      (j : ℕ)
      → fd_info made.files j ≡ (
          if fd == j
          then record (fd_info base.files fd) { file = some id }
          else fd_info base.files j)
  unfolding ep_file_create
  made_entry j =
      fd_info-set base.files fd j (record (fd_info base.files fd) { file = some id }) inside

  made_owner : (fd_info made.files (made.file_at id).fd).file ≡ some id
  made_owner =
      let i : FdInfo = record (fd_info base.files fd) { file = some id } in
      let self : fd == fd ≡ true = ground arith in
      ap (λ (k : ℕ). (fd_info made.files k).file) made_fd
      ∙ ap (λ (k : FdInfo). k.file) (made_entry fd)
      ∙ ap (λ c. (if c then i else fd_info base.files fd).file) self

  pub open_file-Opened :
      is_some_event what ≡ true → Opened id fd what base (open_file ms id fd what timeout base)
  open_file-Opened w =
      let at = (made.file_at id).fd in
      let files = detect-files ms id what timeout made w in
      record {
        watched =
            ep_file_detect-Watched ms id what timeout made made_inside
              (ep_file_create-Watched id fd base inside v);
        room =
            ap length files ∙ watch_room id at (fd_info made.files at).mask what made ∙ made_room;
        entry =
            ap (λ (i : ℕ). fd_info (open_file ms id fd what timeout base).files i) (sym made_fd)
            ∙ ap (λ is. fd_info is at) files
            ∙ watch_entry id at what made made_inside made_owner w;
        others = λ j e.
            ap (λ is. fd_info is j) files
            ∙ watch_others id at what made j made_inside (ap (λ (k : ℕ). k == j) made_fd ∙ e)
            ∙ made_entry j
            ∙ ap
                (λ c.
                  if c
                  then record (fd_info base.files fd) { file = some id }
                  else fd_info base.files j)
                e;
      }

  pub open_file-is_pending :
      ltb_ℤ timeout (pos 0) ≡ false
      → is_some_event what ≡ true
      → is_pending (of_file id) (open_file ms id fd what timeout base).list_timers ≡ true
  unfolding ep_file_detect set_timeout
  open_file-is_pending t w =
      let at = (made.file_at id).fd in
      let mask = (fd_info made.files at).mask in
      let some_event : not (is_some_event mask) && not (is_some_event what) ≡ false =
        ground arith in
      let timed : not (ltb_ℤ timeout (pos 0)) && is_some_event what ≡ true = ground arith in
      rw (some_event, timed)
        (info_add-is_pending ms timeout (of_file id)
          (ep_timer_info_del (of_file id) (watch id at mask what made).list_timers))
