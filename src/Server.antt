-- ===== src/Server.antt =====
-- The state of CSocekt that its event handlers and threads share, and the functions that close a
-- connection or queue a message: net/ngx_c_socket.cxx and net/ngx_c_socket_request.cxx.
-- Each function runs under the mutexes that the code takes.
pub mod Queueing
pub mod Closing
use net_server.Base.{
  ℕ, ◌+◌, Bool, false, Option, none, some, List, [], ◌∷◌, ◌++◌, ltb, ◌==◌, if◌then◌else◌,
}
use net_server.Base.Words.{inc32, dec32, is_pos32}
use net_server.Types.{Conn, Config, Msg}
use net_server.Pool.{Pool, modify, in_recy_connect_queue, free_connection}
use net_server.Recv.{RecvQueue, read_bytes}
use net_server.Timer.{TimerQueue, delete_from_timer_queue}

-- m_MsgSendQueue, m_iSendMsgQueueCount, m_iDiscardSendPkgCount and the value of
-- m_semEventSendQueue.
pub record SendQueue : Type 0 where
  pub msgs : List Msg
  pub count : ℕ
  pub discard : ℕ
  pub sem : ℕ

-- `closed` are the descriptors that were passed to close(), the latest first, and `sent` the bytes
-- that send() has accepted for a connection: both are the outside world's.
pub record Server : Type 0 where
  pub cfg : Config
  pub pool : Pool
  pub timers : TimerQueue
  pub sends : SendQueue
  pub recvs : RecvQueue
  pub closed : List ℕ
  pub sent : ℕ → List ℕ

abbrev pub conn_at : Server → ℕ → Conn
conn_at s a = s.pool.conns a

abbrev pub set_conn : ℕ → (Conn → Conn) → Server → Server
set_conn a f s = record s { pool = modify a f s.pool }

-- `close(fd); fd = -1` if the descriptor is not -1.
unfoldable pub close_fd : ℕ → Server → Server
close_fd a s = elim (conn_at s a).fd [
  | none ↦ s
  | some fd ↦ set_conn a (λ c. record c { fd = none }) (record s { closed = fd ∷ s.closed })
]

-- The parts of zdClosesocketProc: the timers of the connection, and its count of unfinished sends.
unfoldable pub forget_timers : ℕ → Server → Server
forget_timers a s =
    if s.cfg.kick_time_enable == 1
    then record s { timers = delete_from_timer_queue a s.timers }
    else s

unfoldable pub drop_throw_send : ℕ → Server → Server
drop_throw_send a s =
    if is_pos32 (conn_at s a).throw_send_count
    then set_conn a (λ c. record c { throw_send_count = dec32 c.throw_send_count }) s
    else s

-- zdClosesocketProc at the time `now`.
unfoldable pub zd_close_socket_proc : ℕ → ℕ → Server → Server
zd_close_socket_proc a now s =
    let s' = drop_throw_send a (close_fd a (forget_timers a s)) in
    record s' { pool = in_recy_connect_queue a now s'.pool }

-- ngx_close_connection: for a connection that was never handed to a client.
unfoldable pub close_connection : ℕ → Server → Server
unfolding close_fd
close_connection a s = close_fd a (record s { pool = free_connection a s.pool })

-- What `recv` returns: bytes, 0 for an orderly end, or -1 with an errno.
pub data RecvResult : Type 0 where
  received : List ℕ → RecvResult
  peer_closed would_block interrupted conn_reset other_error : RecvResult

-- recvproc: the server, and the bytes if there are any; `none` stands for the result -1.
unfoldable pub recvproc : ℕ → ℕ → RecvResult → Server → Option (List ℕ) × Server
recvproc a now (received bs) s = (some bs, s)
recvproc a now would_block s = (none, s)
recvproc a now interrupted s = (none, s)
recvproc a now peer_closed s = (none, zd_close_socket_proc a now s)
recvproc a now conn_reset s = (none, zd_close_socket_proc a now s)
recvproc a now other_error s = (none, zd_close_socket_proc a now s)

-- The rest of ngx_read_request_handler when bytes came: reassembly, and the end of a flooding client.
-- The clock is read in seconds (`now`) and in milliseconds (`ms`).
unfoldable pub handle_bytes : (ℕ → List ℕ) → ℕ → ℕ → ℕ → List ℕ → Server → Server
handle_bytes alloc a now ms bs s =
    let r = read_bytes alloc s.cfg a ms bs (conn_at s a) s.recvs in
    let s' : Server = record s { pool = modify a (λ _. r.conn) s.pool; recvs = r.queue } in
    if r.is_flood then zd_close_socket_proc a now s' else s'

-- ngx_read_request_handler
unfoldable pub read_request_handler : (ℕ → List ℕ) → ℕ → ℕ → ℕ → RecvResult → Server → Server
unfolding recvproc handle_bytes
read_request_handler alloc a now ms result s =
    let r = recvproc a now result s in
    elim r.0 [ none ↦ r.1 | some bs ↦ handle_bytes alloc a now ms bs r.1 ]

-- The limits in msgSend.
abbrev pub max_send_queue : ℕ
max_send_queue = 50000

abbrev pub max_send_count : ℕ
max_send_count = 400

-- `x > k` for a value of type `int`.
abbrev pub exceeds : ℕ → ℕ → Bool
exceeds x k = if is_pos32 x then ltb k x else false

-- msgSend: the message is queued, or released if too much is queued already. A client for which too
-- much is queued is cut off.
unfoldable pub msg_send : ℕ → Msg → Server → Server
msg_send now m s =
    let a = m.msg_header.conn in
    if exceeds s.sends.count max_send_queue
    then record s { sends = record s.sends { discard = inc32 s.sends.discard } }
    else if exceeds (conn_at s a).send_count max_send_count
    then zd_close_socket_proc a now
        (record s { sends = record s.sends { discard = inc32 s.sends.discard } })
    else record (set_conn a (λ c. record c { send_count = inc32 c.send_count }) s) {
      sends = record s.sends {
        msgs = s.sends.msgs ++ m ∷ [];
        count = inc32 s.sends.count;
        sem = s.sends.sem + 1;
      };
    }

-- clearMsgSendQueue: the counter is left as it is.
unfoldable pub clear_msg_send_queue : SendQueue → SendQueue
clear_msg_send_queue q = record q { msgs = [] }
