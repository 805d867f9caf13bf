-- ===== src/Recv.antt =====
-- Reassembly of packages in net/ngx_c_socket_request.cxx: ngx_read_request_handler after `recvproc`
-- has returned bytes, ngx_wait_request_handler_proc_p1 and ngx_wait_request_handler_proc_plast, with
-- CThreadPool::inMsgRecvQueueAndSignal as the place where a complete message goes.
pub mod Buffer
pub mod Framing
pub mod Invariant
pub mod Progress
pub mod Refine
pub mod Stream
use net_server.Base.{
  ℕ, zero, suc, ◌+◌, ◌-◌, Bool, false, Option, none, some, List, [], ◌∷◌, ◌++◌, length, take, ltb,
  ◌==◌, if◌then◌else◌,
}
use net_server.Base.Words.{inc32}
use net_server.Types.{
  Conn, Config, Msg, RecvState, hd_init, hd_recving, bd_init, bd_recving, RecvPtr, in_head, in_mem,
  len_pkg_header, pkg_max_length, pkg_len,
}
use net_server.Flood.{test_flood}

-- m_MsgRecvQueue with m_iRecvMsgQueueCount.
pub record RecvQueue : Type 0 where
  pub msgs : List Msg
  pub count : ℕ

-- inMsgRecvQueueAndSignal, up to the signal.
abbrev pub in_msg_recv_queue : Msg → RecvQueue → RecvQueue
in_msg_recv_queue m q = record { msgs = q.msgs ++ m ∷ []; count = inc32 q.count }

-- What the handlers change: `*pConn`, the queue, and the caller's `isflood`.
pub record Rx : Type 0 where
  pub conn : Conn
  pub queue : RecvQueue
  pub is_flood : Bool

-- The bytes `bs` written over a buffer from its start. What does not fit is lost.
abbrev pub overlay : List ℕ → List ℕ → List ℕ
overlay [] bs = []
overlay (x ∷ xs) [] = x ∷ xs
overlay (x ∷ xs) (b ∷ bs) = b ∷ overlay xs bs

-- The same from an offset.
unfoldable pub write_at : ℕ → List ℕ → List ℕ → List ℕ
write_at zero bs xs = overlay xs bs
write_at (suc n) bs [] = []
write_at (suc n) bs (x ∷ xs) = x ∷ write_at n bs xs

-- `recv` puts its bytes where `precvbuf` points.
abbrev pub store_in_mem : ℕ → List ℕ → Option Msg → Option Msg
store_in_mem off bs none = none
store_in_mem off bs (some m) = some (record m { pkg = write_at off bs m.pkg })

abbrev pub store_at : RecvPtr → List ℕ → Conn → Conn
store_at (in_head off) bs c = record c { data_head_info = write_at off bs c.data_head_info }
store_at (in_mem off) bs c = record c { recv_mem = store_in_mem off bs c.recv_mem }

-- `precvbuf + n`
abbrev pub advance : RecvPtr → ℕ → RecvPtr
advance (in_head off) n = in_head (off + n)
advance (in_mem off) n = in_mem (off + n)

-- Back to the state in which a package header is awaited.
abbrev pub await_header : Conn → Conn
await_header c = record c { cur_stat = hd_init; recv_buf = in_head 0; recv_len = len_pkg_header }

-- The flood test that stands before each call of proc_plast.
unfoldable pub check_flood : Config → ℕ → Rx → Rx
check_flood cfg now r =
    if cfg.flood_enable == 1
    then (let (c, flood) = test_flood cfg now r.conn in record r { conn = c; is_flood = flood })
    else r

-- A message enters the queue if there is one (the pointer is never NULL here, see Recv/Invariant).
abbrev pub enqueue_mem : Option Msg → RecvQueue → RecvQueue
enqueue_mem none q = q
enqueue_mem (some m) q = in_msg_recv_queue m q

-- ngx_wait_request_handler_proc_plast: the message is queued, or released if the client floods.
unfoldable pub proc_plast : Rx → Rx
proc_plast r = record r {
  conn = await_header (record r.conn { recv_mem = none });
  queue = if r.is_flood then r.queue else enqueue_mem r.conn.recv_mem r.queue;
}

-- The memory that AllocMemory(size, false) returns has any contents.
module _ (alloc : ℕ → List ℕ) (cfg : Config) where
  -- The message buffer of proc_p1: the message header, and the package header copied in.
  abbrev pub new_message : ℕ → Conn → Msg
  new_message self c = record {
    msg_header = record { conn = self; curr_sequence = c.curr_sequence };
    pkg = write_at 0 (take len_pkg_header c.data_head_info) (alloc (pkg_len c.data_head_info));
  }

  -- ngx_wait_request_handler_proc_p1: the package header is complete.
  unfoldable pub proc_p1 : ℕ → ℕ → Rx → Rx
  proc_p1 self now r =
      let e_pkg_len = pkg_len r.conn.data_head_info in
      if ltb e_pkg_len len_pkg_header
      then record r { conn = await_header r.conn }
      else if ltb (pkg_max_length - 1000) e_pkg_len
      then record r { conn = await_header r.conn }
      else (let r' = record r {
        conn = record r.conn { recv_mem = some (new_message self r.conn) };
      } in
          if e_pkg_len == len_pkg_header then proc_plast (check_flood cfg now r') else record r' {
            conn = record r'.conn {
              cur_stat = bd_init;
              recv_buf = in_mem len_pkg_header;
              recv_len = e_pkg_len - len_pkg_header;
            };
          })

  -- Fewer bytes came than were asked for.
  abbrev pub keep_receiving : RecvState → ℕ → Rx → Rx
  keep_receiving s reco r = record r {
    conn = record r.conn {
      cur_stat = s;
      recv_buf = advance r.conn.recv_buf reco;
      recv_len = r.conn.recv_len - reco;
    };
  }

  -- The cases of ngx_read_request_handler by `curStat`, when `reco` bytes are in the buffer.
  unfoldable pub dispatch : RecvState → ℕ → ℕ → ℕ → Rx → Rx
  dispatch hd_init self now reco r =
      if reco == len_pkg_header then proc_p1 self now r else keep_receiving hd_recving reco r
  dispatch hd_recving self now reco r =
      if r.conn.recv_len == reco then proc_p1 self now r else keep_receiving hd_recving reco r
  dispatch bd_init self now reco r =
      if reco == r.conn.recv_len
      then proc_plast (check_flood cfg now r)
      else keep_receiving bd_recving reco r
  dispatch bd_recving self now reco r =
      if r.conn.recv_len == reco
      then proc_plast (check_flood cfg now r)
      else keep_receiving bd_recving reco r

  -- ngx_read_request_handler for the connection at `self`, when `recv` has returned `bs`.
  unfoldable pub read_bytes : ℕ → ℕ → List ℕ → Conn → RecvQueue → Rx
  read_bytes self now bs c q =
      let c' = store_at c.recv_buf bs c in
      dispatch c.cur_stat self now (length bs) (record { conn = c'; queue = q; is_flood = false })
