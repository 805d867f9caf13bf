-- ===== src/Logic/Answers.antt =====
-- How threadRecvProcFunc answers a client.
use net_server.Base.{
  ℕ, ◌≤◌, ◌≡◌, refl, sym, ap, subst, ◌∙◌, List, [], ◌∷◌, ◌++◌, arith, length, All, update,
}
use net_server.Types.{Conn, Msg, MsgHeader}
use net_server.Recv.Stream.{IsPackage}
use net_server.Crc.Bitwise.{IsByte}
use net_server.Server.{Server, SendQueue, conn_at, max_send_queue, max_send_count}
use net_server.Server.Queueing.{msg_send-queued}
use net_server.Logic.{
  msg_code, Command, do_ping, do_register, do_log_in, reply, thread_recv_proc_func,
}
use net_server.Logic.Checks.{
  IsIntact, Accepts, answer, note_command, command_code, check_crc-IsIntact, thread_recv-Accepts,
}
use net_server.Logic.Replies.{reply-verified, no_body-verified}

-- A package that a client of the same protocol would accept, with the code of a command.
pub record IsAnswer (command : Command) (p : List ℕ) : Type 0 where
  pub framed : IsPackage p
  pub code : msg_code p ≡ command_code command
  pub intact : IsIntact p

-- What the client sees: its answer is the last message to send, and the queue is otherwise as it was.
pub record Answered (command : Command) (now : ℕ) (m : Msg) (s s' : Server) : Type 0 where
  pub reply : Msg
  pub queued : s'.sends.msgs ≡ s.sends.msgs ++ reply ∷ []
  pub owner : reply.msg_header ≡ m.msg_header
  pub good : IsAnswer command reply.pkg
  pub closed : s'.closed ≡ s.closed
  pub timers : s'.timers ≡ s.timers
  pub pinged : command ≡ do_ping → (conn_at s' m.msg_header.conn).last_ping_time ≡ now

-- Counting a queued message leaves the times of heartbeats alone.
counted_ping :
    (conns : ℕ → Conn) (b a n t : ℕ)
    → (conns a).last_ping_time ≡ t
    → (update conns b (record (conns b) { send_count = n }) a).last_ping_time ≡ t
counted_ping conns b a n t e = ground arith

module _ (alloc : ℕ → List ℕ) (sized : (n : ℕ) → length (alloc n) ≡ n)
    (bytes : (n : ℕ) → All IsByte (alloc n)) where
  answer-IsAnswer :
      (h : MsgHeader) (command : Command) → IsAnswer command (answer alloc h command).pkg
  answer-IsAnswer h do_ping =
      let v = no_body-verified 0 (omega arith) in
      record { framed = v.0; code = v.1; intact = check_crc-IsIntact _ _ v.2 }
  answer-IsAnswer h do_register =
      let v = reply-verified alloc sized bytes h 5 100 (omega arith) (omega arith) (omega arith) in
      record { framed = v.0; code = v.1; intact = check_crc-IsIntact _ _ v.2 }
  answer-IsAnswer h do_log_in =
      let v = reply-verified alloc sized bytes h 6 96 (omega arith) (omega arith) (omega arith) in
      record { framed = v.0; code = v.1; intact = check_crc-IsIntact _ _ v.2 }

  answer-owner : (h : MsgHeader) (command : Command) → (answer alloc h command).msg_header ≡ h
  unfolding reply
  answer-owner h do_ping = refl
  answer-owner h do_register = refl
  answer-owner h do_log_in = refl

  note_command-queue :
      (now a : ℕ) (command : Command) (s : Server)
      → let t = note_command now a command s in
        (t.sends ≡ s.sends)
        × ((conn_at t a).send_count ≡ (conn_at s a).send_count)
        × (t.closed ≡ s.closed)
        × (t.timers ≡ s.timers)
        × (command ≡ do_ping → (conn_at t a).last_ping_time ≡ now)
  note_command-queue now a do_ping s = (refl, ground arith, refl, refl, λ e. ground arith)
  note_command-queue now a do_register s = (refl, refl, refl, refl, λ e. cc)
  note_command-queue now a do_log_in s = (refl, refl, refl, refl, λ e. cc)

  -- A message whose CRC is right, whose connection is still the one it came from, and whose body has
  -- the size that its command wants, is answered while the queue and the client are below their
  -- limits: the last message to send is a well-formed package for the same client, with the code of
  -- the command and the right CRC. A heartbeat is noted with the time. The messages that were queued
  -- stay, and nothing is closed. The allocator returns as many bytes as it is asked for.
  pub thread_recv-answers :
      (now : ℕ) (m : Msg) (s : Server) (command : Command)
      → Accepts s m command
      → s.sends.count ≤ max_send_queue
      → (conn_at s m.msg_header.conn).send_count ≤ max_send_count
      → Answered command now m s (thread_recv_proc_func alloc now m s)
  thread_recv-answers now m s command ok few fair =
      let a = m.msg_header.conn in
      let t = note_command now a command s in
      let n = note_command-queue now a command s in
      let h = m.msg_header in
      let own : (answer alloc h command).msg_header ≡ h = answer-owner h command in
      let few' : t.sends.count ≤ max_send_queue =
        omega (arith, ap (λ (q : SendQueue). q.count) n.0) in
      let fair' : (conn_at t (answer alloc h command).msg_header.conn).send_count ≤ max_send_count =
        subst (λ (g : MsgHeader). (conn_at t g.conn).send_count ≤ max_send_count) (sym own)
          (omega (arith, n.1)) in
      let e =
        thread_recv-Accepts alloc now m s command ok
        ∙ msg_send-queued now (answer alloc h command) t few' fair' in
      record {
        reply = answer alloc h command;
        queued =
            ap (λ (x : Server). x.sends.msgs) e
            ∙ ap (λ (q : SendQueue). q.msgs ++ answer alloc h command ∷ []) n.0;
        owner = own;
        good = answer-IsAnswer h command;
        closed = ap (λ (x : Server). x.closed) e ∙ n.2;
        timers = ap (λ (x : Server). x.timers) e ∙ n.3;
        pinged = λ ping.
            ap (λ (x : Server). (conn_at x a).last_ping_time) e
            ∙ counted_ping t.pool.conns (answer alloc h command).msg_header.conn a _ now (n.4 ping);
      }
