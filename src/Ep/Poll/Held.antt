-- ===== src/Ep/Poll/Held.antt =====
-- ep.c: what the callbacks of files and timers keep of the loop, besides the masks: the size of the
-- array, and that every file's descriptor stands in it.
use h2_client_proxy.Base.{
  if◌then◌else◌, false, ℕ, ◌<◌, ◌==◌, ◌≡◌, refl, ap, ◌∙◌, arith, true, none, some, length, set,
  ◌&&◌, not, inl, inr, Bool-cases, ◌∷◌, List, [], zero, suc, replicate,
}
use h2_client_proxy.Base.Int.{ℤ, negsuc}
use h2_client_proxy.Ep.Types.{
  EpBase, EpFile, Mask, poll_wait, assign, is_some_event, of_file, no_events,
}
use h2_client_proxy.Ep.Timer.{ep_timer_info_del}
use h2_client_proxy.Ep.File.{
  ep_file_free, init_pool_size, fd_info, watch, set_timeout, ep_file_create, ep_file_detect, no_fd,
  ep_base_create,
}
use h2_client_proxy.Ep.File.Mirror.{set_timeout-files}
use h2_client_proxy.Ep.Poll.Watched.{Watched, same-Watched, waited-Watched}
use h2_client_proxy.Ep.Poll.Files.{
  ep_base_create-Watched, ep_file_create-Watched, ep_file_detect-Watched,
}

-- The base is in step with epoll, its array has all its entries, and no file has a descriptor behind
-- them.
pub record Held (base : EpBase) : Type 0 where
  pub watched : Watched base
  pub room : length base.files ≡ init_pool_size
  pub placed : (id : ℕ) → (base.file_at id).fd < init_pool_size

pub same-Held :
    (base base' : EpBase)
    → base'.files ≡ base.files
    → base'.polls ≡ base.polls
    → base'.fd_count ≡ base.fd_count
    → ((id : ℕ) → (base'.file_at id).fd ≡ (base.file_at id).fd)
    → Held base
    → Held base'
same-Held base base' files polls counts at v = record {
  watched = same-Watched base base' files polls counts v.watched;
  room = ap length files ∙ v.room;
  placed = λ id. rw (at id) (v.placed id);
}

pub waited-Held :
    (base : EpBase) (timeout : ℤ)
    → Held base
    → Held (record base { polls = poll_wait timeout ∷ base.polls })
waited-Held base timeout v = record {
  watched = waited-Watched base timeout v.watched;
  room = v.room;
  placed = v.placed;
}

-- A file that is changed keeps its descriptor.
pub placed-assign :
    (f : ℕ → EpFile) (i : ℕ) (x : EpFile)
    → x.fd ≡ (f i).fd
    → (j : ℕ) → (assign f i x j).fd ≡ (f j).fd
placed-assign f i x e j = elim (Bool-cases (i == j)) [
  | inl t ↦ let same : i ≡ j = ground (arith, t) in rw (t) (e ∙ ap (λ k. (f k).fd) same)
  | inr t ↦ rw (t) refl
]

pub length-set {ℓ} : {A : Type ℓ} (xs : List A) (n : ℕ) (x : A) → length (set xs n x) ≡ length xs
length-set [] n x = refl
length-set (y ∷ ys) zero x = refl
length-set (y ∷ ys) (suc n) x = ap suc (length-set ys n x)

pub watch_room :
    (id fd : ℕ) (mask what : Mask) (base : EpBase)
    → length (watch id fd mask what base).files ≡ length base.files
unfolding watch
watch_room id fd mask what base = ground (
  arith,
  length-set base.files fd (record { mask = what; file = some id }),
  length-set base.files fd (record { mask = what; file = none }),
  length-set base.files fd (record (fd_info base.files fd) { mask = what }),
)

watch-file_at :
    (id fd : ℕ) (mask what : Mask) (base : EpBase)
    → (watch id fd mask what base).file_at ≡ base.file_at
unfolding watch
watch-file_at id fd mask what base = ground arith

set_timeout-fd :
    (ms : ℤ) (id : ℕ) (what : Mask) (timeout : ℤ) (base : EpBase) (j : ℕ)
    → ((set_timeout ms id what timeout base).file_at j).fd ≡ (base.file_at j).fd
unfolding set_timeout
set_timeout-fd ms id what timeout base j = ground (
  arith,
  placed-assign base.file_at id
      (record (base.file_at id) { timeout = timeout; has_timer_info = true }) refl j,
  placed-assign base.file_at id (record (base.file_at id) { timeout = timeout }) refl j,
)

-- A file asks for events, or for none.
pub ep_file_detect-Held :
    (ms : ℤ) (id : ℕ) (what : Mask) (timeout : ℤ) (base : EpBase)
    → Held base
    → Held (ep_file_detect ms id what timeout base)
unfolding ep_file_detect
ep_file_detect-Held ms id what timeout base v =
    let fd = (base.file_at id).fd in
    let mask = (fd_info base.files fd).mask in
    let base1 = watch id fd mask what base in
    let inside : fd < length base.files = omega (arith, v.room, v.placed id) in
    let kept = ep_file_detect-Watched ms id what timeout base inside v.watched in
    elim (Bool-cases (not (is_some_event mask) && not (is_some_event what))) [
      | inl e ↦ rw (ep_file_detect, e) v
      | inr e ↦
          let it : ep_file_detect ms id what timeout base ≡ set_timeout ms id what timeout base1 =
            rw (ep_file_detect, e) refl in
          rw it (record {
            watched = rw⁻¹ it kept;
            room =
                ap length (set_timeout-files ms timeout id what base1)
                ∙ watch_room id fd mask what base
                ∙ v.room;
            placed = λ j.
                rw
                  (set_timeout-fd ms id what timeout base1 j
                    ∙ ap (λ f. (f j).fd) (watch-file_at id fd mask what base))
                  (v.placed j);
          })
    ]

pub ep_file_free-Held :
    (ms : ℤ) (id : ℕ) (base : EpBase) → Held base → Held (ep_file_free ms id base)
unfolding ep_file_free
ep_file_free-Held ms id base v =
    let ev = base.file_at id in
    let base1 = record base {
      file_at = assign base.file_at id (record ev { has_timer_info = false });
      list_timers =
          if ev.has_timer_info
          then ep_timer_info_del (of_file id) base.list_timers
          else base.list_timers;
    } in
    ep_file_detect-Held ms id no_events (negsuc 0) base1 (
      same-Held base base1 refl refl refl
        (placed-assign base.file_at id (record ev { has_timer_info = false }) refl) v)

-- A file is made for a descriptor for which there is room.
pub ep_file_create-Held :
    (id fd : ℕ) (base : EpBase) → fd < init_pool_size → Held base → Held (ep_file_create id fd base)
unfolding ep_file_create
ep_file_create-Held id fd base inside v = record {
  watched = ep_file_create-Watched id fd base (omega (arith, v.room, inside)) v.watched;
  room = length-set base.files fd (record (fd_info base.files fd) { file = some id }) ∙ v.room;
  placed = λ j. elim (Bool-cases (id == j)) [ inl t ↦ rw (t) inside | inr t ↦ rw (t) (v.placed j) ];
}

length-replicate {ℓ} : {A : Type ℓ} (n : ℕ) (x : A) → length (replicate n x) ≡ n
length-replicate zero x = refl
length-replicate (suc n) x = ap suc (length-replicate n x)

pub ep_base_create-room : length ep_base_create.files ≡ init_pool_size
unfolding ep_base_create
ep_base_create-room = length-replicate init_pool_size no_fd

pub ep_base_create-Held : Held ep_base_create
unfolding ep_base_create
ep_base_create-Held = record {
  watched = ep_base_create-Watched;
  room = ep_base_create-room;
  placed = λ id. omega arith;
}
