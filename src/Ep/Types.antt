-- ===== src/Ep/Types.antt =====
-- ep.h, ep.c and ep_poll.h: the state of the event loop.
use h2_client_proxy.Base.{ℕ, ◌==◌, ◌||◌, Bool, true, false, Option, List, if◌then◌else◌}
use h2_client_proxy.Base.Int.{ℤ}

-- A set of the bits EP_READ and EP_WRITE. The program also passes on -1, which has both bits: no
-- other bit of a mask is read.
pub record Mask : Type 0 where
  pub read : Bool
  pub write : Bool

abbrev pub no_events : Mask
no_events = record { read = false; write = false }

-- The mask -1.
abbrev pub all_events : Mask
all_events = record { read = true; write = true }

abbrev pub ep_read : Mask
ep_read = record { read = true; write = false }

abbrev pub ep_write : Mask
ep_write = record { read = false; write = true }

-- `mask != 0`
abbrev pub is_some_event : Mask → Bool
is_some_event m = m.read || m.write

-- `a | b`
abbrev pub mask_or : Mask → Mask → Mask
mask_or a b = record { read = a.read || b.read; write = a.write || b.write }

-- Files and timers are known by their addresses, which are numbers here.
pub data Owner : Type 0 where
  of_file : ℕ → Owner
  of_timer : ℕ → Owner

-- `struct ep_timer_info`: its `pending` is whether it stands in the list of timers.
pub record TimerInfo : Type 0 where
  pub info : Owner
  pub timeout_ms : ℤ

-- `struct ep_file`, with whether its timer info is allocated.
pub record EpFile : Type 0 where
  pub fd : ℕ
  pub timeout : ℤ
  pub has_timer_info : Bool

pub record FdInfo : Type 0 where
  pub mask : Mask
  pub file : Option ℕ

-- `struct ep_timer`, with whether its timer info is allocated.
pub record EpTimer : Type 0 where
  pub has_info : Bool
  pub pending : Bool

-- The calls of epoll; `poll_wait` is `ep_poll_dispatch` with its timeout.
pub data PollCall : Type 0 where
  poll_add poll_mod : ℕ → Mask → PollCall
  poll_del : ℕ → PollCall
  poll_wait : ℤ → PollCall

-- `struct ep_base`, the files and timers that were allocated, and the calls of epoll, the last one
-- first.
pub record EpBase : Type 0 where
  pub files : List FdInfo
  pub list_timers : List TimerInfo
  pub fd_count : ℕ
  pub is_stop : Bool
  pub file_at : ℕ → EpFile
  pub timer_at : ℕ → EpTimer
  pub polls : List PollCall

abbrev pub assign {ℓ} : {A : Type ℓ} → (ℕ → A) → ℕ → A → ℕ → A
assign f i a j = if i == j then a else f j

abbrev pub same_owner : Owner → Owner → Bool
same_owner (of_file i) (of_file j) = i == j
same_owner (of_timer i) (of_timer j) = i == j
same_owner (of_file i) (of_timer j) = false
same_owner (of_timer i) (of_file j) = false
