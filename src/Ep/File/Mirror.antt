-- ===== src/Ep/File/Mirror.antt =====
-- ep.c: `ep_file_detect` keeps the masks, the count of descriptors and the interest list of epoll
-- in step.
use h2_client_proxy.Base.{
  replicate, ◌&&◌, ℕ, zero, suc, ◌+◌, ◌<◌, ◌==◌, ◌≡◌, ◌||◌, not, Bool, true, false, none, some,
  List, [], ◌∷◌, refl, arith, if◌then◌else◌, length, set, inl, inr, Bool-cases, sym, ap, ◌∙◌,
}
use h2_client_proxy.Base.Int.{pos, ltb_ℤ, ℤ}
use h2_client_proxy.Ep.Types.{
  EpBase, FdInfo, Mask, no_events, is_some_event, PollCall, poll_add, poll_mod, poll_del, poll_wait,
}
use h2_client_proxy.Ep.File.{
  fd_info, no_fd, init_pool_size, watch, set_timeout, ep_file_detect, ep_base_create,
  ep_file_create,
}

-- The events that epoll watches on a descriptor after some calls, the last one first.
abbrev pub registered : List PollCall → ℕ → Mask
registered [] fd = no_events
registered (poll_add i m ∷ cs) fd = if i == fd then m else registered cs fd
registered (poll_mod i m ∷ cs) fd = if i == fd then m else registered cs fd
registered (poll_del i ∷ cs) fd = if i == fd then no_events else registered cs fd
registered (poll_wait timeout ∷ cs) fd = registered cs fd

-- A descriptor is added only if it is not watched, and changed or deleted only if it is: epoll
-- fails otherwise.
abbrev pub IsProper : List PollCall → Type 0
IsProper [] = Unit {0}
IsProper (poll_add i m ∷ cs) =
    (is_some_event (registered cs i) ≡ false) × (is_some_event m ≡ true) × IsProper cs
IsProper (poll_mod i m ∷ cs) =
    (is_some_event (registered cs i) ≡ true) × (is_some_event m ≡ true) × IsProper cs
IsProper (poll_del i ∷ cs) = (is_some_event (registered cs i) ≡ true) × IsProper cs
IsProper (poll_wait timeout ∷ cs) = IsProper cs

-- How many descriptors are watched.
abbrev pub count : List FdInfo → ℕ
count [] = 0
count (i ∷ is) = (if is_some_event i.mask then 1 else 0) + count is

pub record Mirrors (base : EpBase) : Type 0 where
  pub same : (fd : ℕ) → registered base.polls fd ≡ (fd_info base.files fd).mask
  pub proper : IsProper base.polls
  pub counted : base.fd_count ≡ count base.files

pub fd_info-set :
    (is : List FdInfo) (i j : ℕ) (x : FdInfo)
    → i < length is
    → fd_info (set is i x) j ≡ (if i == j then x else fd_info is j)
fd_info-set [] i j x h = absurd (omega arith)
fd_info-set (y ∷ is) zero zero x h = refl
fd_info-set (y ∷ is) zero (suc j) x h = ground arith
fd_info-set (y ∷ is) (suc i) zero x h = ground arith
fd_info-set (y ∷ is) (suc i) (suc j) x h = ground (arith, fd_info-set is i j x)

abbrev one_if : Bool → ℕ
one_if b = if b then 1 else 0

count-set :
    (is : List FdInfo) (i : ℕ) (x : FdInfo)
    → i < length is
    → count (set is i x) + one_if (is_some_event (fd_info is i).mask)
      ≡ count is + one_if (is_some_event x.mask)
count-set [] i x h = absurd (omega arith)
count-set (y ∷ is) zero x h = omega arith
count-set (y ∷ is) (suc i) x h = omega (arith, count-set is i x (omega arith))

no_event : (m : Mask) → is_some_event m ≡ false → m ≡ no_events
no_event m e = ground arith

module _ (id fd : ℕ) (what : Mask) (base : EpBase) (v : Mirrors base)
    (inside : fd < length base.files) where
  abbrev old : Mask
  old = (fd_info base.files fd).mask

  -- The entry of the descriptor is written, and epoll is told the same.
  watch-same :
      (j : ℕ)
      → registered (watch id fd old what base).polls j
        ≡ (fd_info (watch id fd old what base).files j).mask
  unfolding watch
  watch-same j = ground (
    arith,
    v.same j,
    fd_info-set base.files fd j (record { mask = what; file = some id }) inside,
    fd_info-set base.files fd j (record { mask = what; file = none }) inside,
    fd_info-set base.files fd j (record (fd_info base.files fd) { mask = what }) inside,
    no_event what,
  )

  watch-counted :
      is_some_event old || is_some_event what ≡ true
      → (watch id fd old what base).fd_count ≡ count (watch id fd old what base).files
  unfolding watch
  watch-counted some_event = ground (
    arith,
    v.counted,
    count-set base.files fd (record { mask = what; file = some id }) inside,
    count-set base.files fd (record { mask = what; file = none }) inside,
    count-set base.files fd (record (fd_info base.files fd) { mask = what }) inside,
  )

  watch-IsProper :
      is_some_event old || is_some_event what ≡ true → IsProper (watch id fd old what base).polls
  unfolding watch
  watch-IsProper some_event = ground (arith, v.same fd, v.proper)

  watch-mask : (fd_info (watch id fd old what base).files fd).mask ≡ what
  unfolding watch
  watch-mask = ground (
    arith,
    fd_info-set base.files fd fd (record { mask = what; file = some id }) inside,
    fd_info-set base.files fd fd (record { mask = what; file = none }) inside,
    fd_info-set base.files fd fd (record (fd_info base.files fd) { mask = what }) inside,
  )

  watch-Mirrors :
      is_some_event old || is_some_event what ≡ true → Mirrors (watch id fd old what base)
  watch-Mirrors some_event = record {
    same = watch-same;
    proper = watch-IsProper some_event;
    counted = watch-counted some_event;
  }

set_timeout-Mirrors :
    (ms timeout : ℤ) (id : ℕ) (what : Mask) (base : EpBase)
    → Mirrors base
    → Mirrors (set_timeout ms id what timeout base)
unfolding set_timeout
set_timeout-Mirrors ms timeout id what base v =
    elim (Bool-cases (not (ltb_ℤ timeout (pos 0)) && is_some_event what)) [
      | inl e ↦ rw e (record { same = v.same; proper = v.proper; counted = v.counted })
      | inr e ↦ rw e (record { same = v.same; proper = v.proper; counted = v.counted })
    ]

pub set_timeout-files :
    (ms timeout : ℤ) (id : ℕ) (what : Mask) (base : EpBase)
    → (set_timeout ms id what timeout base).files ≡ base.files
unfolding set_timeout
set_timeout-files ms timeout id what base = ground arith

-- Whatever events a file asks for, on a descriptor inside the array: the events that epoll watches
-- on each descriptor stay those of the array's masks, epoll is never asked to add a descriptor that
-- it watches, nor to change or delete one that it does not, and `fd_count` stays the number of
-- descriptors that are watched.
pub ep_file_detect-Mirrors :
    (ms : ℤ) (id : ℕ) (what : Mask) (timeout : ℤ) (base : EpBase)
    → (base.file_at id).fd < length base.files
    → Mirrors base
    → Mirrors (ep_file_detect ms id what timeout base)
unfolding ep_file_detect
ep_file_detect-Mirrors ms id what timeout base inside v =
    let fd = (base.file_at id).fd in
    let mask = (fd_info base.files fd).mask in
    elim (Bool-cases (not (is_some_event mask) && not (is_some_event what))) [
      | inl e ↦ rw e v
      | inr e ↦ rw e (
          set_timeout-Mirrors ms timeout id what (watch id fd mask what base)
            (watch-Mirrors id fd what base v inside (ground arith)))
    ]

-- A file that asks for events, or for none, on a descriptor inside the array: the mask of the
-- descriptor is then what was asked for.
pub ep_file_detect-mask :
    (ms : ℤ) (id : ℕ) (what : Mask) (timeout : ℤ) (base : EpBase)
    → (base.file_at id).fd < length base.files
    → Mirrors base
    → (fd_info (ep_file_detect ms id what timeout base).files (base.file_at id).fd).mask ≡ what
unfolding ep_file_detect
ep_file_detect-mask ms id what timeout base inside v =
    let fd = (base.file_at id).fd in
    let mask = (fd_info base.files fd).mask in
    elim (Bool-cases (not (is_some_event mask) && not (is_some_event what))) [
      | inl e ↦ rw e (no_event mask (ground arith) ∙ sym (no_event what (ground arith)))
      | inr e ↦ rw e (
          ap (λ is. (fd_info is fd).mask)
            (set_timeout-files ms timeout id what (watch id fd mask what base))
          ∙ watch-mask id fd what base v inside)
    ]

pub fd_info-replicate : (n fd : ℕ) → fd_info (replicate n no_fd) fd ≡ no_fd
fd_info-replicate zero fd = refl
fd_info-replicate (suc n) zero = refl
fd_info-replicate (suc n) (suc fd) = fd_info-replicate n fd

-- At the start nothing is watched.
pub ep_base_create-Mirrors : Mirrors ep_base_create
unfolding ep_base_create
ep_base_create-Mirrors = record {
  same = λ fd. rw (fd_info-replicate init_pool_size fd);
  proper = tt;
  counted = refl;
}

-- A file that is made for a descriptor changes no mask.
pub ep_file_create-Mirrors :
    (id fd : ℕ) (base : EpBase)
    → fd < length base.files
    → Mirrors base
    → Mirrors (ep_file_create id fd base)
unfolding ep_file_create
ep_file_create-Mirrors id fd base inside v =
    let i : FdInfo = record (fd_info base.files fd) { file = some id } in
    record {
      same = λ j. ground (arith, v.same j, fd_info-set base.files fd j i inside);
      proper = v.proper;
      counted = ground (arith, v.counted, count-set base.files fd i inside);
    }
