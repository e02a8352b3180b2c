-- ===== src/Conn.antt =====
-- conn_tcp.c and conn.h: a connection below the tunnel. Masks are numbers here; `socket`, `connect`,
-- `recv`, `send` and `close` are system calls, and what `send` returns is an argument: a number of
-- bytes, none for -1.
use h2_client_proxy.Base.{
  Option, none, some, [], ◌++◌, take, Bytes, has_bit, bit_if, ℕ, ◌+◌, Bool, true, false,
}
use h2_client_proxy.Base.Int.{ℤ, pos, negsuc}
use h2_client_proxy.Ep.Types.{Mask, no_events}
use h2_client_proxy.Ep.Watch.{Watch, watch_new, detect}

-- The events of conn.h.
abbrev pub conn_read : ℕ
conn_read = 1

abbrev pub conn_write : ℕ
conn_write = 2

abbrev pub conn_error : ℕ
conn_error = 4

abbrev pub conn_timeout : ℕ
conn_timeout = 8

-- What `tcp_conn_eventcb` passes on: of the events of ep.h the timeout is 4 and the error is 8.
unfoldable pub tcp_conn_eventcb : ℕ → ℕ
tcp_conn_eventcb what =
    bit_if (has_bit 1 what) conn_read
    + bit_if (has_bit 2 what) conn_write
    + bit_if (has_bit 4 what) conn_timeout
    + bit_if (has_bit 8 what) conn_error

-- `struct tcp_conn`, with whether it is closed and freed.
pub record TcpConn : Type 0 where
  pub file : Watch
  pub is_closed : Bool

unfoldable pub tcp_conn_create : TcpConn
tcp_conn_create = record { file = watch_new; is_closed = false }

unfoldable pub tcp_conn_detect : ℕ → ℤ → TcpConn → TcpConn
tcp_conn_detect what timeout c =
    let ev : Mask = record { read = has_bit conn_read what; write = has_bit conn_write what } in
    record c { file = detect ev timeout c.file }

unfoldable pub tcp_conn_close : TcpConn → TcpConn
tcp_conn_close c = record { file = detect no_events (negsuc 0) c.file; is_closed = true }

-- The bytes that the system takes of those that are sent.
unfoldable pub taken_of : Bytes → Option ℕ → Bytes
taken_of bytes none = []
taken_of bytes (some n) = take n bytes

-- `tcp_conn_write`: the bytes that were sent over the connection, and its result.
unfoldable pub tcp_conn_write : Bytes → Option ℕ → Bytes → Bytes × ℤ
unfolding taken_of
tcp_conn_write bytes r on_wire =
    (on_wire ++ taken_of bytes r, elim r [ none ↦ negsuc 0 | some n ↦ pos n ])
