-- ===== src/Server/Tests.antt =====
-- The start of a server, and its first connection.
use h2_client_proxy.Base.{
  ℕ, ◌==◌, ◌≡◌, refl, arith, true, false, none, some, [], ◌∷◌, if◌then◌else◌, inl, inr, Bool-cases,
  ◌<◌,
}
use h2_client_proxy.Base.Int.{pos, negsuc, ℤ, ◌+ℤ◌}
use h2_client_proxy.Ep.Types.{EpBase, of_file, ep_read, ep_write, no_events, poll_wait, Mask}
use h2_client_proxy.Ep.Timer.{is_pending, ep_timer_get_next, ep_timer_info_add, ep_timer_info_del}
use h2_client_proxy.Ep.File.{
  ep_file_free, fd_info, ep_base_create, ep_file_create, ep_file_detect, watch, set_timeout,
  init_pool_size,
}
use h2_client_proxy.Ep.Loop.{run_events, ep_base_dispatch}
use h2_client_proxy.Ep.Poll.{
  EpollEvent, interest, system_call, ep_poll_add, ep_poll_dispatch, Report,
}
use h2_client_proxy.Ep.Poll.Watched.{Watched}
use h2_client_proxy.Ep.Poll.Files.{ep_base_create-Watched}
use h2_client_proxy.Ep.Poll.Held.{
  ep_file_free-Held, Held, ep_base_create-Held, ep_file_create-Held, ep_file_detect-Held,
}
use h2_client_proxy.Ep.Poll.Rounds.{ep_base_dispatch-Watched}
use h2_client_proxy.Server.{
  client_handle_fd_file, readcb, server_start, open_file, Start, server_create_listen_fd,
}
use h2_client_proxy.Server.Files.{Opened, open_file-Opened}
use h2_client_proxy.Server.Accepts.{server_start-Watched, server_accepts}

abbrev start : Start
start = record { listen_file = 1; dns_file = 2; tunnel_file = 3; dns_fd = 4; tunnel_fd = 5 }

server_start-Watched_example :
    (base : EpBase) × (server_start (pos 0) (pos 3) start ≡ some base)
    × Watched base
    × (fd_info base.files 3 ≡ record { mask = ep_read; file = some 1 })
    × (fd_info base.files 4 ≡ record { mask = no_events; file = some 2 })
    × (fd_info base.files 5 ≡ record { mask = ep_write; file = some 3 })
server_start-Watched_example =
    server_start-Watched (pos 0) 3 start (omega arith) (omega arith) (omega arith) refl refl refl

-- `bind` fails, and server_start goes on with -1.
no_listener : server_start (pos 0) (server_create_listen_fd (pos 3) false true) start ≡ none
unfolding server_start server_create_listen_fd
no_listener = refl

abbrev listening : EpBase
listening = open_file (pos 0) 1 3 ep_read (negsuc 0) ep_base_create

listening-Watched : Watched listening
unfolding ep_base_create
listening-Watched =
    (open_file-Opened (pos 0) 1 3 ep_read (negsuc 0) ep_base_create (omega arith)
      ep_base_create-Watched refl).watched

abbrev connection : EpollEvent
connection = record {
  fd = 3;
  events = record { epollin = true; epollout = false; epollerr = false; epollhup = false };
}

abbrev quiet : ℕ → ℕ → EpBase → EpBase
quiet file mask base = base

abbrev no_timer : ℕ → EpBase → EpBase
no_timer id base = base

server_accepts_example :
    (base : EpBase) × (run_events
        (λ file mask b. if file == 1 then readcb (pos 9) 8 (pos 7) b else quiet file mask b)
        no_timer
        (ep_poll_dispatch (some (connection ∷ [])))
        listening
      ≡ base)
    × Opened 8 7 ep_read listening base
    × (is_pending (of_file 8) base.list_timers ≡ true)
unfolding ep_file_detect watch set_timeout ep_file_create ep_base_create system_call ep_poll_add
server_accepts_example =
    server_accepts (pos 9) 1 8 6 quiet no_timer listening connection listening-Watched
      (record {
        wanted = interest ep_read;
        is_wanted = refl;
        in_wanted = λ e. refl;
        out_wanted = λ e. cc;
      })
      refl (omega arith)

open_file-Held :
    (ms : ℤ) (id fd : ℕ) (what : Mask) (timeout : ℤ) (b : EpBase)
    → fd < init_pool_size
    → Held b
    → Held (open_file ms id fd what timeout b)
open_file-Held ms id fd what timeout b inside v =
    ep_file_detect-Held ms id what timeout (ep_file_create id fd b)
      (ep_file_create-Held id fd b inside v)

-- The file that listens accepts the connection 7 as the file 8; every other file is freed.
abbrev serve : ℕ → ℕ → EpBase → EpBase
serve id mask b = if id == 1 then readcb (pos 9) 8 (pos 7) b else ep_file_free (pos 9) id b

serve-Held : (id mask : ℕ) (b : EpBase) → Held b → Held (serve id mask b)
unfolding readcb client_handle_fd_file
serve-Held id mask b v = elim (Bool-cases (id == 1)) [
  | inl t ↦ rw (t) (open_file-Held (pos 9) 8 7 ep_read (pos 30000) b (omega arith) v)
  | inr t ↦ rw (t) (ep_file_free-Held (pos 9) id b v)
]

-- The connection comes in a round at 0 that checks the timers at 5.
abbrev round : Report
round = record { start = pos 0; check = pos 5; reports = some (connection ∷ []) }

abbrev accepted : EpBase
accepted =
    readcb (pos 9) 8 (pos 7) (record listening { polls = poll_wait (negsuc 0) ∷ listening.polls })

ep_base_dispatch-Watched_example : Held accepted
unfolding ep_file_detect watch set_timeout ep_file_create ep_base_create system_call ep_poll_add
    ep_base_dispatch ep_poll_dispatch ep_timer_get_next readcb client_handle_fd_file
    ep_timer_info_add ep_timer_info_del ◌+ℤ◌
ep_base_dispatch-Watched_example =
    ep_base_dispatch-Watched serve no_timer serve-Held (λ id b v. v) 2 (round ∷ []) listening
      accepted
      (open_file-Held (pos 0) 1 3 ep_read (negsuc 0) ep_base_create (omega arith)
        ep_base_create-Held)
      (
        ((
          omega arith,
          (
            record {
              wanted = interest ep_read;
              is_wanted = refl;
              in_wanted = λ e. refl;
              out_wanted = λ e. cc;
            },
            tt,
          ),
        )),
        (λ b e. tt),
      )
      refl
