-- ===== src/Process.antt =====
-- What a thread of a worker process keeps, beside the event loop, if no other thread acts while it does:
-- a thread of the pool with a message (threadRecvProcFunc of logic/ngx_c_slogic.cxx), a round of the
-- sending thread (net/ngx_c_socket.cxx), and a round of the timer thread (net/ngx_c_socket_time.cxx).
-- The code has no mutex that keeps the others out between the check of a sequence number and what
-- follows it, so these are statements about one thread at a time.
pub mod Threads
pub mod Background
use net_server.Base.{◌≡◌}
use net_server.Types.{MsgHeader}
use net_server.Server.{Server, conn_at}
use net_server.EventLoop.Handlers.{Held}

-- If the connection still has the client that the header was made for, it is held.
abbrev pub Known : Server → MsgHeader → Type 0
Known s h = (conn_at s h.conn).curr_sequence ≡ h.curr_sequence → Held s.pool h.conn
