-- ===== src/Server/Accepts.antt =====
-- server.c over ep.c and epoll: the server listens, and a connection that comes becomes a client.
use h2_client_proxy.Base.{
  same_some, ℕ, suc, ◌<◌, ◌==◌, ◌≡◌, refl, ap, ◌∙◌, arith, true, false, some, [], ◌∷◌,
  if◌then◌else◌, length, map,
}
use h2_client_proxy.Base.Int.{ℤ, pos, negsuc}
use h2_client_proxy.Ep.Types.{EpBase, FdInfo, of_file, ep_read, ep_write, no_events}
use h2_client_proxy.Ep.Timer.{is_pending}
use h2_client_proxy.Ep.File.{fd_info, init_pool_size, ep_base_create, ep_file_create}
use h2_client_proxy.Ep.File.Mirror.{fd_info-set, fd_info-replicate}
use h2_client_proxy.Ep.Loop.{run_events}
use h2_client_proxy.Ep.Poll.{EpollEvent, IsAsked, system_call, ep_poll_dispatch}
use h2_client_proxy.Ep.Poll.Watched.{Watched, reported_event}
use h2_client_proxy.Ep.Poll.Held.{ep_base_create-room, length-set}
use h2_client_proxy.Ep.Poll.Files.{ep_base_create-Watched, ep_file_create-Watched}
use h2_client_proxy.Server.{
  open_file, readcb, client_handle_fd_file, dns_init_file, client_init_file, server_start, Start,
}
use h2_client_proxy.Server.Files.{Opened, open_file-Opened, open_file-is_pending}

-- The array has room for the descriptors.
abbrev pub HasRoom : ℕ → Type 0
HasRoom fd = fd < init_pool_size

-- The server starts with a descriptor that listens, one for the name server and one for the tunnel,
-- three different ones for which the array of the loop has room: the loop is in step with epoll, the
-- descriptor that listens is watched for reading, the tunnel for writing, each with its file, and the
-- descriptor of the name server has its file and is not watched yet.
pub server_start-Watched :
    (ms : ℤ) (fd : ℕ) (s : Start)
    → HasRoom fd
    → HasRoom s.dns_fd
    → HasRoom s.tunnel_fd
    → fd == s.dns_fd ≡ false
    → s.tunnel_fd == fd ≡ false
    → s.tunnel_fd == s.dns_fd ≡ false
    → (base : EpBase) × (server_start ms (pos fd) s ≡ some base)
      × Watched base
      × (fd_info base.files fd ≡ record { mask = ep_read; file = some s.listen_file })
      × (fd_info base.files s.dns_fd ≡ record { mask = no_events; file = some s.dns_file })
      × (fd_info base.files s.tunnel_fd ≡ record { mask = ep_write; file = some s.tunnel_file })
unfolding server_start dns_init_file client_init_file ep_base_create ep_file_create
server_start-Watched ms fd s a b c d e f =
    let full : length ep_base_create.files ≡ init_pool_size = ep_base_create-room in
    let base1 = open_file ms s.listen_file fd ep_read (negsuc 0) ep_base_create in
    let one =
      open_file-Opened ms s.listen_file fd ep_read (negsuc 0) ep_base_create
        (omega (arith, full, a)) ep_base_create-Watched refl in
    let inside2 : s.dns_fd < length base1.files = omega (arith, one.room, full, b) in
    let base2 = ep_file_create s.dns_file s.dns_fd base1 in
    let two = ep_file_create-Watched s.dns_file s.dns_fd base1 inside2 one.watched in
    let dns : FdInfo = record (fd_info base1.files s.dns_fd) { file = some s.dns_file } in
    let room2 : length base2.files ≡ length base1.files = length-set base1.files s.dns_fd dns in
    let three =
      open_file-Opened ms s.tunnel_file s.tunnel_fd ep_write (pos 30000) base2
        (omega (arith, room2, one.room, full, c)) two refl in
    let entry2 : (j : ℕ)
        → fd_info base2.files j ≡ (if s.dns_fd == j then dns else fd_info base1.files j) =
      λ j. fd_info-set base1.files s.dns_fd j dns inside2 in
    let g : s.dns_fd == fd ≡ false = ground (arith, d) in
    let self : s.dns_fd == s.dns_fd ≡ true = ground arith in
    (
      open_file ms s.tunnel_file s.tunnel_fd ep_write (pos 30000) base2,
      refl,
      three.watched,
      three.others fd e
          ∙ entry2 fd
          ∙ ap (λ x. if x then dns else fd_info base1.files fd) g
          ∙ one.entry,
      three.others s.dns_fd f
          ∙ entry2 s.dns_fd
          ∙ ap (λ x. if x then dns else fd_info base1.files s.dns_fd) self
          ∙ ap (λ (i : FdInfo). record i { file = some s.dns_file })
              (one.others s.dns_fd d ∙ fd_info-replicate init_pool_size s.dns_fd),
      three.entry,
    )

-- epoll reports a connection on the descriptor that listens, and `accept` gives a descriptor above 0
-- for which the array has room: the loop makes a client's file for it, which is watched for reading
-- and has its timeout, and changes no other descriptor. What the other files do is left open.
pub server_accepts :
    (ms : ℤ) (listen_file id fd : ℕ) (others : ℕ → ℕ → EpBase → EpBase)
    (timer_cb : ℕ → EpBase → EpBase) (base : EpBase) (e : EpollEvent)
    → Watched base
    → IsAsked (map system_call base.polls) e
    → (fd_info base.files e.fd).file ≡ some listen_file
    → suc fd < length base.files
    → (base' : EpBase) × (run_events
          (λ file mask b.
            if file == listen_file then readcb ms id (pos (suc fd)) b else others file mask b)
          timer_cb
          (ep_poll_dispatch (some (e ∷ [])))
          base
        ≡ base')
      × Opened id (suc fd) ep_read base base'
      × (is_pending (of_file id) base'.list_timers ≡ true)
unfolding readcb client_handle_fd_file
server_accepts ms listen_file id fd others timer_cb base e v a owner inside =
    let cb : ℕ → ℕ → EpBase → EpBase = λ file mask b.
      if file == listen_file then readcb ms id (pos (suc fd)) b else others file mask b in
    let (called, mask, runs, owner', is_in, is_out, no_timeout, failed, reads, writes) =
      reported_event cb timer_cb base e v a in
    let same : called ≡ listen_file = same_some owner' owner in
    let self : listen_file == listen_file ≡ true = ground arith in
    (
      open_file ms id (suc fd) ep_read (pos 30000) base,
      runs
          ∙ ap (λ (k : ℕ). cb k mask base) same
          ∙ ap (λ x. if x then readcb ms id (pos (suc fd)) base else others listen_file mask base)
              self,
      open_file-Opened ms id (suc fd) ep_read (pos 30000) base inside v refl,
      open_file-is_pending ms id (suc fd) ep_read (pos 30000) base inside v refl refl,
    )
