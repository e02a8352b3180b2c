-- ===== src/Ep/Poll.antt =====
-- ep_poll_epoll.c: the calls of epoll that stand behind those of ep_poll.h, and the events that
-- `ep_poll_dispatch` makes of what epoll reports. epoll itself is a parameter: `reports` is what
-- `epoll_wait` stores, none if it returns -1, and `Honest` is what its documentation promises.
pub mod Watched
pub mod Files
pub mod Held
pub mod Rounds
use h2_client_proxy.Base.{
  ℕ, ◌+◌, ◌≤◌, ◌==◌, ◌||◌, ◌≡◌, Bool, true, false, Option, none, some, List, [], ◌∷◌, map, length,
  if◌then◌else◌, bit_if,
}
use h2_client_proxy.Base.Int.{ℤ}
use h2_client_proxy.Ep.Types.{EpBase, Mask, PollCall, poll_add, poll_mod, poll_del, poll_wait}
use h2_client_proxy.Ep.Loop.{Round}

-- The bits of `events` that the program uses.
pub record EpollEvents : Type 0 where
  pub epollin : Bool
  pub epollout : Bool
  pub epollerr : Bool
  pub epollhup : Bool

-- `struct epoll_event` with its descriptor.
pub record EpollEvent : Type 0 where
  pub fd : ℕ
  pub events : EpollEvents

-- The calls of the system; `epoll_wait` has the number of events that there is room for and the
-- timeout.
pub data EpollCall : Type 0 where
  ctl_add ctl_mod : ℕ → EpollEvents → EpollCall
  ctl_del : ℕ → EpollCall
  epoll_wait : ℕ → ℤ → EpollCall

-- `ev` as `ep_poll_add` and `ep_poll_mod` fill it.
abbrev pub interest : Mask → EpollEvents
interest what = record {
  epollin = what.read;
  epollout = what.write;
  epollerr = false;
  epollhup = false;
}

unfoldable pub ep_poll_add : ℕ → Mask → EpollCall
ep_poll_add fd what = ctl_add fd (interest what)

unfoldable pub ep_poll_mod : ℕ → Mask → EpollCall
ep_poll_mod fd what = ctl_mod fd (interest what)

unfoldable pub ep_poll_del : ℕ → EpollCall
ep_poll_del fd = ctl_del fd

-- `fds[i].event`, with EP_READ 1, EP_WRITE 2 and EP_ERROR 8.
unfoldable pub event_mask : EpollEvents → ℕ
event_mask e = bit_if e.epollin 1 + bit_if e.epollout 2 + bit_if (e.epollhup || e.epollerr) 8

-- The loop over the events that were reported.
unfoldable pub fill_fds : List EpollEvent → List (ℕ × ℕ)
unfolding event_mask
fill_fds [] = []
fill_fds (e ∷ es) = (e.fd, event_mask e.events) ∷ fill_fds es

-- The descriptors that are reported; -1 is none.
unfoldable pub ep_poll_dispatch : Option (List EpollEvent) → List (ℕ × ℕ)
unfolding fill_fds
ep_poll_dispatch none = []
ep_poll_dispatch (some reports) = fill_fds reports

-- The call of the system for one of ep_poll.h: `epoll_wait` is told of room for one event.
unfoldable pub system_call : PollCall → EpollCall
unfolding ep_poll_add ep_poll_mod ep_poll_del
system_call (poll_add fd what) = ep_poll_add fd what
system_call (poll_mod fd what) = ep_poll_mod fd what
system_call (poll_del fd) = ep_poll_del fd
system_call (poll_wait timeout) = epoll_wait 1 timeout

-- What epoll was last told of a descriptor, by some calls with the last one first; none after a
-- delete.
abbrev pub asked : List EpollCall → ℕ → Option EpollEvents
asked [] fd = none
asked (ctl_add i e ∷ cs) fd = if i == fd then some e else asked cs fd
asked (ctl_mod i e ∷ cs) fd = if i == fd then some e else asked cs fd
asked (ctl_del i ∷ cs) fd = if i == fd then none else asked cs fd
asked (epoll_wait n timeout ∷ cs) fd = asked cs fd

-- An event is on a descriptor that is watched, and of the bits that were asked for; an error or a
-- hang-up needs no asking.
pub record IsAsked (calls : List EpollCall) (e : EpollEvent) : Type 0 where
  pub wanted : EpollEvents
  pub is_wanted : asked calls e.fd ≡ some wanted
  pub in_wanted : e.events.epollin ≡ true → wanted.epollin ≡ true
  pub out_wanted : e.events.epollout ≡ true → wanted.epollout ≡ true

abbrev pub AllAsked : List EpollCall → List EpollEvent → Type 0
AllAsked calls [] = Unit {0}
AllAsked calls (e ∷ es) = IsAsked calls e × AllAsked calls es

-- What `epoll_wait` with room for one event may report after these calls.
abbrev pub Honest : List EpollCall → Option (List EpollEvent) → Type 0
Honest calls none = Unit {0}
Honest calls (some es) = (length es ≤ 1) × AllAsked calls es

-- A round of the loop with the times and what epoll reports in it.
pub record Report : Type 0 where
  pub start : ℤ
  pub check : ℤ
  pub reports : Option (List EpollEvent)

abbrev pub round_of : Report → Round
round_of r = record { start = r.start; check = r.check; fds = ep_poll_dispatch r.reports }
