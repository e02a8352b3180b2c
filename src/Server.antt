-- ===== src/Server.antt =====
-- server.c, with the starts of the parts that it calls: the files that the event loop has at the
-- start, and the callback of the listening one. What the system calls return is an argument; a
-- descriptor below 0 is an access outside the array of files.
pub mod Files
pub mod Accepts
mod Tests
use h2_client_proxy.Base.{ℕ, zero, suc, not, Bool, true, false, Option, none, some, if◌then◌else◌}
use h2_client_proxy.Base.Int.{ℤ, pos, negsuc, ltb_ℤ}
use h2_client_proxy.Ep.Types.{EpBase, Mask, ep_read, ep_write}
use h2_client_proxy.Ep.File.{ep_base_create, ep_file_create, ep_file_detect}

-- `server_create_listen_fd` with the descriptor of `socket`, and whether `bind` and `listen` succeed.
unfoldable pub server_create_listen_fd : ℤ → Bool → Bool → ℤ
server_create_listen_fd fd is_bound is_listening =
    if not is_bound then negsuc 0 else if not is_listening then negsuc 0 else fd

-- A file is made for a descriptor, and watched.
abbrev pub open_file : ℤ → ℕ → ℕ → Mask → ℤ → EpBase → EpBase
open_file ms id fd what timeout base = ep_file_detect ms id what timeout (ep_file_create id fd base)

-- The file of `client_handle_fd`, with the address `id`.
unfoldable pub client_handle_fd_file : ℤ → ℕ → ℕ → EpBase → EpBase
client_handle_fd_file ms id fd base = open_file ms id fd ep_read (pos 30000) base

-- `accepted` is what `accept` returns, -1 for an error.
unfoldable pub readcb : ℤ → ℕ → ℤ → EpBase → EpBase
unfolding client_handle_fd_file
readcb ms id (negsuc n) base = base
readcb ms id (pos zero) base = base
readcb ms id (pos (suc fd)) base = client_handle_fd_file ms id (suc fd) base

-- `dns_init`: the file is not watched until a request is sent.
unfoldable pub dns_init_file : ℕ → ℕ → EpBase → EpBase
dns_init_file id fd base = ep_file_create id fd base

-- `client_init`, which starts the tunnel of relay_http2.c: watched for writing, for 30 seconds.
unfoldable pub client_init_file : ℤ → ℕ → ℕ → EpBase → EpBase
client_init_file ms id fd base = open_file ms id fd ep_write (pos 30000) base

-- The addresses of the three files, and the descriptors of the name server and of the tunnel.
pub record Start : Type 0 where
  pub listen_file : ℕ
  pub dns_file : ℕ
  pub tunnel_file : ℕ
  pub dns_fd : ℕ
  pub tunnel_fd : ℕ

-- The loop as `server_start` leaves it to `ep_base_dispatch`.
unfoldable pub server_start : ℤ → ℤ → Start → Option EpBase
unfolding dns_init_file client_init_file
server_start ms (negsuc n) s = none
server_start ms (pos fd) s =
    let base1 = open_file ms s.listen_file fd ep_read (negsuc 0) ep_base_create in
    let base2 = dns_init_file s.dns_file s.dns_fd base1 in
    some (client_init_file ms s.tunnel_file s.tunnel_fd base2)
