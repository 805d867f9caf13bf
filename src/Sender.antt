-- ===== src/Sender.antt =====
-- Sending in net/ngx_c_socket.cxx and net/ngx_c_socket_request.cxx: sendproc, the loop of
-- ServerSendQueueThread over the queue, and ngx_write_request_handler.
pub mod Conserve
pub mod Order
pub mod Resume
pub mod Counting
use net_server.Base.{
  ℕ, zero, suc, ◌+◌, ◌-◌, ◌<◌, Bool, true, false, Option, none, some, List, [], ◌∷◌, ◌++◌, take,
  drop, update, ltb, ◌==◌, if◌then◌else◌,
}
use net_server.Base.Words.{inc32, dec32, is_pos32}
use net_server.Types.{Conn, Msg, pkg_len}
use net_server.Server.{Server, SendQueue, conn_at, set_conn}
use net_server.Epoll.{oper_event, ctl_mod, epollout}

-- The results of send(): a number of bytes, 0, or -1 with an errno.
pub data RawSend : Type 0 where
  raw_sent : ℕ → RawSend
  raw_zero raw_again raw_interrupted raw_error : RawSend

-- The results of sendproc: n > 0, 0, -1 and -2.
pub data SendOutcome : Type 0 where
  sent_bytes : ℕ → SendOutcome
  sent_zero buffer_full broken : SendOutcome

-- sendproc: `for (;;)` goes on while send() is interrupted. The list holds the results of the
-- successive calls of send(); `none` means that the call still waits at its end.
unfoldable pub sendproc : List RawSend → Option SendOutcome
sendproc [] = none
sendproc (raw_sent n ∷ rest) = some (sent_bytes n)
sendproc (raw_zero ∷ rest) = some sent_zero
sendproc (raw_again ∷ rest) = some buffer_full
sendproc (raw_interrupted ∷ rest) = sendproc rest
sendproc (raw_error ∷ rest) = some broken

-- Wait for EPOLLOUT to go on.
abbrev pub await_writable : Conn → Conn
await_writable c =
    oper_event ctl_mod epollout 0 (record c { throw_send_count = inc32 c.throw_send_count })

-- The buffer is released and nothing is left to send.
abbrev pub send_over : Conn → Conn
send_over c = record c { send_mem = none; throw_send_count = 0 }

-- After sendproc in the sending thread, by its result.
abbrev pub after_send : SendOutcome → Conn → Conn
after_send (sent_bytes n) c =
    if n == c.send_len
    then send_over c
    else await_writable (record c { send_buf = c.send_buf + n; send_len = c.send_len - n })
after_send sent_zero c = send_over c
after_send buffer_full c = await_writable c
after_send broken c = send_over c

-- The bytes at `psendbuf`.
abbrev pub unsent : ℕ → Option Msg → List ℕ
unsent off none = []
unsent off (some m) = drop off m.pkg

-- What the kernel took.
abbrev pub accepted : SendOutcome → List ℕ → List ℕ
accepted (sent_bytes n) bs = take n bs
accepted sent_zero bs = []
accepted buffer_full bs = []
accepted broken bs = []

abbrev pub log_sent : ℕ → List ℕ → Server → Server
log_sent a bs s = record s { sent = update s.sent a (s.sent a ++ bs) }

-- The message is taken from the queue and as much of it as possible is sent, by the result of
-- sendproc.
unfoldable pub send_message : SendOutcome → Msg → Server → Server
unfolding oper_event
send_message outcome m s =
    let a = m.msg_header.conn in
    let c = conn_at s a in
    let ready : Conn = record c {
      send_count = dec32 c.send_count;
      send_mem = some m;
      send_buf = 0;
      send_len = pkg_len m.pkg;
    } in
    log_sent a (accepted outcome m.pkg) (
      set_conn a (λ _. after_send outcome ready)
        (record s { sends = record s.sends { count = dec32 s.sends.count } }))

-- `net k len` is what sendproc returns at the k-th attempt, to send `len` bytes.
module _ (net : ℕ → ℕ → SendOutcome) where
  -- One message of the queue: whether it stays there, the number of attempts so far, the server.
  unfoldable pub send_step : Msg → ℕ → Server → Bool × ℕ × Server
  send_step m k s =
      let c = conn_at s m.msg_header.conn in
      if c.curr_sequence == m.msg_header.curr_sequence
      then (if is_pos32 c.throw_send_count
          then (true, k, s)
          else (false, suc k, send_message (net k (pkg_len m.pkg)) m s))
      else (false, k, record s { sends = record s.sends { count = dec32 s.sends.count } })

  -- The loop over the queue: what stays in it, and the server.
  unfoldable pub send_loop : List Msg → ℕ → Server → List Msg × Server
  send_loop [] k s = ([], s)
  send_loop (m ∷ rest) k s =
      let (stays, k', s') = send_step m k s in
      let (kept, s'') = send_loop rest k' s' in ((if stays then m ∷ kept else kept), s'')

  -- One round of ServerSendQueueThread, after sem_wait.
  unfoldable pub send_round : Server → Server
  send_round s =
      if is_pos32 s.sends.count
      then (let (kept, s') = send_loop s.sends.msgs 0 s in
          record s' { sends = record s'.sends { msgs = kept } })
      else s

-- The end of ngx_write_request_handler: the sending thread is woken and the buffer released.
abbrev pub write_over : ℕ → Server → Server
write_over a s =
    set_conn a (λ c. record c { send_mem = none; throw_send_count = dec32 c.throw_send_count })
      (record s { sends = record s.sends { sem = s.sends.sem + 1 } })

-- ngx_write_request_handler for the connection at `a`, by the result of sendproc.
unfoldable pub write_request_handler : ℕ → SendOutcome → Server → Server
unfolding oper_event
write_request_handler a (sent_bytes n) s =
    let c = conn_at s a in
    let s' = log_sent a (take n (unsent c.send_buf c.send_mem)) s in
    if n == c.send_len
    then write_over a (set_conn a (oper_event ctl_mod epollout 1) s')
    else set_conn a (λ c'. record c' { send_buf = c'.send_buf + n; send_len = c'.send_len - n }) s'
write_request_handler a sent_zero s = write_over a s
write_request_handler a buffer_full s = s
write_request_handler a broken s = write_over a s
