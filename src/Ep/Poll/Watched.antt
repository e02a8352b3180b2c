-- ===== src/Ep/Poll/Watched.antt =====
-- ep.c and ep_poll_epoll.c: a file is called only for events that it asked for.
use h2_client_proxy.Base.{
  ℕ, ◌+◌, same_some, ◌||◌, ◌≡◌, refl, sym, ap, ◌∙◌, arith, Bool, true, false, Option, none, some,
  List, [], ◌∷◌, map, if◌then◌else◌, has_bit, bit_if, inl, inr, Bool-cases,
}
use h2_client_proxy.Base.Int.{ℤ}
use h2_client_proxy.Ep.Types.{
  EpBase, Mask, PollCall, poll_add, poll_mod, poll_del, poll_wait, is_some_event,
}
use h2_client_proxy.Ep.File.{fd_info}
use h2_client_proxy.Ep.File.Mirror.{count, registered, IsProper, Mirrors}
use h2_client_proxy.Ep.Loop.{run_events}
use h2_client_proxy.Ep.Poll.{
  EpollEvent, interest, event_mask, ep_poll_dispatch, system_call, asked, IsAsked,
}

-- The interest list is that of the masks.
asked-registered :
    (cs : List PollCall) (fd : ℕ)
    → IsProper cs
    → asked (map system_call cs) fd
      ≡ (if is_some_event (registered cs fd) then some (interest (registered cs fd)) else none)
unfolding system_call
asked-registered [] fd v = refl
asked-registered (poll_add i m ∷ cs) fd v = ground (arith, asked-registered cs fd v.2, v.1)
asked-registered (poll_mod i m ∷ cs) fd v = ground (arith, asked-registered cs fd v.2, v.1)
asked-registered (poll_del i ∷ cs) fd v = ground (arith, asked-registered cs fd v.1)
asked-registered (poll_wait timeout ∷ cs) fd v = asked-registered cs fd v

flags :
    (i o x : Bool)
    → let n = bit_if i 1 + bit_if o 2 + bit_if x 8 in
      (has_bit 1 n ≡ i) × (has_bit 2 n ≡ o) × (has_bit 4 n ≡ false) × (has_bit 8 n ≡ x)
flags false false false = (refl, refl, refl, refl)
flags false false true = (refl, refl, refl, refl)
flags false true false = (refl, refl, refl, refl)
flags false true true = (refl, refl, refl, refl)
flags true false false = (refl, refl, refl, refl)
flags true false true = (refl, refl, refl, refl)
flags true true false = (refl, refl, refl, refl)
flags true true true = (refl, refl, refl, refl)

-- The masks are those of epoll, and each descriptor that is watched has its file.
pub record Watched (base : EpBase) : Type 0 where
  pub mirrors : Mirrors base
  pub owned :
      (fd : ℕ)
      → is_some_event (fd_info base.files fd).mask ≡ true
      → (id : ℕ) × ((fd_info base.files fd).file ≡ some id)

-- A descriptor that epoll reports has a file, which asked for what is reported.
asked-Watched :
    (base : EpBase) (e : EpollEvent)
    → Watched base
    → IsAsked (map system_call base.polls) e
    → (id : ℕ) × ((fd_info base.files e.fd).file ≡ some id)
      × (e.events.epollin ≡ true → (fd_info base.files e.fd).mask.read ≡ true)
      × (e.events.epollout ≡ true → (fd_info base.files e.fd).mask.write ≡ true)
asked-Watched base e v a =
    let mask = (fd_info base.files e.fd).mask in
    let known : asked (map system_call base.polls) e.fd
        ≡ (if is_some_event mask then some (interest mask) else none) =
      asked-registered base.polls e.fd v.mirrors.proper
      ∙ ap (λ (m : Mask). if is_some_event m then some (interest m) else none)
          (v.mirrors.same e.fd) in
    elim (Bool-cases (is_some_event mask)) [
      | inl t ↦
          let same : a.wanted ≡ interest mask =
            same_some a.is_wanted (known ∙ ap (λ c. if c then some (interest mask) else none) t) in
          let owner = v.owned e.fd t in
          (
            owner.0,
            owner.1,
            (λ i. ap (λ w. w.epollin) (sym same) ∙ a.in_wanted i),
            (λ o. ap (λ w. w.epollout) (sym same) ∙ a.out_wanted o),
          )
      | inr f ↦
          let none_known : asked (map system_call base.polls) e.fd ≡ none =
            known ∙ ap (λ c. if c then some (interest mask) else none) f in
          let clash : some a.wanted ≡ none = sym a.is_wanted ∙ none_known in cc
    ]

-- A base that has the files and the calls of epoll of another one.
pub same-Watched :
    (base base' : EpBase)
    → base'.files ≡ base.files
    → base'.polls ≡ base.polls
    → base'.fd_count ≡ base.fd_count
    → Watched base
    → Watched base'
same-Watched base base' files polls counts v = record {
  mirrors = record {
    same = λ fd.
        ap (λ cs. registered cs fd) polls
        ∙ v.mirrors.same fd
        ∙ ap (λ is. (fd_info is fd).mask) (sym files);
    proper = rw (polls) v.mirrors.proper;
    counted = counts ∙ v.mirrors.counted ∙ ap count (sym files);
  };
  owned = λ fd. rw (files) (v.owned fd);
}

pub waited-Watched :
    (base : EpBase) (timeout : ℤ)
    → Watched base
    → Watched (record base { polls = poll_wait timeout ∷ base.polls })
waited-Watched base timeout v = record {
  mirrors = record {
    same = v.mirrors.same;
    proper = v.mirrors.proper;
    counted = v.mirrors.counted;
  };
  owned = v.owned;
}

module _ (file_cb : ℕ → ℕ → EpBase → EpBase) (timer_cb : ℕ → EpBase → EpBase) where
  -- The masks and files are in step, and epoll reports an event that was asked for: the loop calls the
  -- file of the descriptor and nothing else, with the event as its mask: the bit of reading is set
  -- exactly if epoll reports EPOLLIN, that of writing exactly for EPOLLOUT, 8 exactly for an error or
  -- a hang-up, and the bit of a timeout never. What is reported of reading and writing is what the
  -- file watches for.
  pub reported_event :
      (base : EpBase) (e : EpollEvent)
      → Watched base
      → IsAsked (map system_call base.polls) e
      → (id mask : ℕ) × (run_events file_cb timer_cb (ep_poll_dispatch (some (e ∷ []))) base
          ≡ file_cb id mask base)
        × ((fd_info base.files e.fd).file ≡ some id)
        × (has_bit 1 mask ≡ e.events.epollin)
        × (has_bit 2 mask ≡ e.events.epollout)
        × (has_bit 4 mask ≡ false)
        × (has_bit 8 mask ≡ e.events.epollhup || e.events.epollerr)
        × (e.events.epollin ≡ true → (fd_info base.files e.fd).mask.read ≡ true)
        × (e.events.epollout ≡ true → (fd_info base.files e.fd).mask.write ≡ true)
  unfolding run_events ep_poll_dispatch event_mask
  reported_event base e v a =
      let (id, owner, reads, writes) = asked-Watched base e v a in
      let f = flags e.events.epollin e.events.epollout (e.events.epollhup || e.events.epollerr) in
      (
        id,
        event_mask e.events,
        ap
            (λ (o : Option ℕ). elim o as (λ _. EpBase) [
              | none ↦ record base { polls = poll_del e.fd ∷ base.polls }
              | some i ↦ file_cb i (event_mask e.events) base
            ])
            owner,
        owner,
        f.0,
        f.1,
        f.2,
        f.3,
        reads,
        writes,
      )
