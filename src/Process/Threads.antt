-- ===== src/Process/Threads.antt =====
-- What a thread of the pool keeps.
use net_server.Base.{
  ℕ, ◌+◌, ◌≡◌, refl, sym, ap, subst, inl, inr, Bool, true, false, Option, none, some, List, [], ◌∷◌,
  ◌++◌, arith, Bool-cases, Option-cases, ◌==◌, ltb, ◌-◌, if◌then◌else◌,
}
use net_server.Base.Words.{inc32}
use net_server.Types.{Conn, Msg, MsgHeader, len_pkg_header, pkg_len}
use net_server.Pool.{Pool, modify}
use net_server.Pool.Handing.{IsConsistent-conns}
use net_server.Server.{
  Server, SendQueue, conn_at, set_conn, msg_send, exceeds, max_send_queue, max_send_count,
}
use net_server.Server.Queueing.{IsSendQueue, msg_send-IsSendQueue}
use net_server.Logic.{
  Command, do_ping, do_register, do_log_in, handle, handle_ping, handle_register, handle_log_in,
  check_crc, dispatch_command, thread_recv_proc_func, status_handler, auth_total_commands, msg_code,
  send_no_body_pkg_to_client, len_struct_register, len_struct_log_in,
}
use net_server.EventLoop.Handlers.{SameHandlers, Held}
use net_server.EventLoop.Steady.{Steady, set_conn-Steady}
use net_server.Process.{Known}
use net_server.EventLoop.Fine.{IsServer, Fine, Fine-refl, Fine-trans, zd_close-Fine}

-- A change that leaves the pool alone.
same_pool-Steady : (s t : Server) → t.pool ≡ s.pool → Steady s t
same_pool-Steady s t e = record {
  held = λ b h. subst (λ (p : Pool). Held p b) (sym e) h;
  handlers =
      λ b h. (ap (λ (p : Pool). (p.conns b).rhandler) e, ap (λ (p : Pool). (p.conns b).whandler) e);
  newly = λ b h. inl (subst (λ (p : Pool). Held p b) e h);
}

set_conn-Fine :
    (a : ℕ) (f : Conn → Conn) (s : Server)
    → IsServer s
    → SameHandlers (conn_at s a) (f (conn_at s a))
    → Fine 0 s (set_conn a f s)
set_conn-Fine a f s ok same = record {
  server = record {
    books = IsConsistent-conns s.pool (modify a f s.pool) refl ok.books;
    timers = ok.timers;
    sends = ok.sends;
  };
  steady = set_conn-Steady a f s same;
  timers_le = omega arith;
}

sends-Fine :
    (s : Server) (q : SendQueue) → IsServer s → IsSendQueue q → Fine 0 s (record s { sends = q })
sends-Fine s q ok right = record {
  server = record { books = ok.books; timers = ok.timers; sends = right };
  steady = same_pool-Steady s (record s { sends = q }) refl;
  timers_le = omega arith;
}

discarded-IsSendQueue :
    (q : SendQueue) (n : ℕ) → IsSendQueue q → IsSendQueue (record q { discard = n })
discarded-IsSendQueue q n ok = record { counted = ok.counted; bounded = ok.bounded }

pub msg_send-Fine :
    (now : ℕ) (m : Msg) (s : Server)
    → Held s.pool m.msg_header.conn
    → IsServer s
    → Fine 0 s (msg_send now m s)
unfolding msg_send
msg_send-Fine now m s held ok =
    let a = m.msg_header.conn in
    let q : SendQueue = record s.sends { discard = inc32 s.sends.discard } in
    let dropped =
      sends-Fine s q ok (discarded-IsSendQueue s.sends (inc32 s.sends.discard) ok.sends) in
    let right = msg_send-IsSendQueue now m s ok.sends in
    elim (Bool-cases (exceeds s.sends.count max_send_queue)) [
      | inl full ↦ rw (full, msg_send) dropped
      | inr room ↦ elim (Bool-cases (exceeds (conn_at s a).send_count max_send_count)) [
        | inl flooded ↦
            rw (room, flooded, msg_send)
              (Fine-trans 0 0 s (record s { sends = q }) _ dropped
                (zd_close-Fine a now (record s { sends = q }) held dropped.server))
        | inr fine ↦
            let u = set_conn a (λ c. record c { send_count = inc32 c.send_count }) s in
            let q' : SendQueue = record s.sends {
              msgs = s.sends.msgs ++ m ∷ [];
              count = inc32 s.sends.count;
              sem = s.sends.sem + 1;
            } in
            let queued : msg_send now m s ≡ record u { sends = q' } = rw (room, fine) refl in
            let first =
              set_conn-Fine a (λ c. record c { send_count = inc32 c.send_count }) s ok
                (refl, refl) in
            subst (Fine 0 s) (sym queued) (
              Fine-trans 0 0 s u (record u { sends = q' }) first
                (sends-Fine u q' first.server
                  (subst (λ (x : Server). IsSendQueue x.sends) queued right)))
      ]
    ]

module _ (alloc : ℕ → List ℕ) where
  answered-Fine :
      (now : ℕ) (m : Msg) (b : Bool) (s : Server)
      → Held s.pool m.msg_header.conn
      → IsServer s
      → let r : Bool × Server = (if b then (true, msg_send now m s) else (false, s)) in Fine 0 s r.1
  answered-Fine now m true s held ok = msg_send-Fine now m s held ok
  answered-Fine now m false s held ok = Fine-refl s ok

  handle-Fine :
      (now : ℕ) (c : Command) (h : MsgHeader) (body : Option (List ℕ)) (n : ℕ) (s : Server)
      → Held s.pool h.conn
      → IsServer s
      → Fine 0 s (handle alloc now c h body n s).1
  unfolding handle_ping handle_register handle_log_in send_no_body_pkg_to_client
  handle-Fine now do_ping h body n s held ok = elim (Bool-cases (n == 0)) [
    | inr long ↦ rw long (Fine-refl s ok)
    | inl empty ↦
        let t = set_conn h.conn (λ c. record c { last_ping_time = now }) s in
        let first =
          set_conn-Fine h.conn (λ c. record c { last_ping_time = now }) s ok (refl, refl) in
        rw empty (Fine-trans 0 0 s t _ first (msg_send-Fine now _ t held first.server))
  ]
  handle-Fine now do_register h none n s held ok = Fine-refl s ok
  handle-Fine now do_register h (some body) n s held ok =
      answered-Fine now _ (len_struct_register == n) s held ok
  handle-Fine now do_log_in h none n s held ok = Fine-refl s ok
  handle-Fine now do_log_in h (some body) n s held ok =
      answered-Fine now _ (len_struct_log_in == n) s held ok

  command-Fine :
      (now : ℕ) (m : Msg) (body : Option (List ℕ)) (n : ℕ) (o : Option Command) (s : Server)
      → Held s.pool m.msg_header.conn
      → IsServer s
      → Fine 0 s (elim o [ none ↦ s | some c ↦ (handle alloc now c m.msg_header body n s).1 ])
  command-Fine now m body n none s held ok = Fine-refl s ok
  command-Fine now m body n (some c) s held ok = handle-Fine now c m.msg_header body n s held ok

  dispatch_command-Fine :
      (now : ℕ) (m : Msg) (body : Option (List ℕ)) (s : Server)
      → Known s m.msg_header
      → IsServer s
      → Fine 0 s (dispatch_command alloc now m body s)
  unfolding dispatch_command
  dispatch_command-Fine now m body s known ok =
      let h = m.msg_header in
      elim (Bool-cases ((conn_at s h.conn).curr_sequence == h.curr_sequence)) [
        | inr stale ↦ rw stale (Fine-refl s ok)
        | inl current ↦ rw current (elim (Bool-cases (ltb (msg_code m.pkg) auth_total_commands)) [
          | inr unknown ↦ rw unknown (Fine-refl s ok)
          | inl in_table ↦ rw in_table (
              command-Fine now m body (pkg_len m.pkg - len_pkg_header)
                (status_handler (msg_code m.pkg)) s (known (ground (arith, current))) ok)
        ])
      ]

  -- threadRecvProcFunc, if no other thread acts meanwhile, leaves the books of the pool, the timer queue
  -- and the count of the messages to send right, and adds no timer. Every connection that was in use,
  -- or waited to be recycled, still is or does, with its handlers as they were, also if the answer
  -- finds too many messages waiting and the connection is closed for it. If the sequence number of the
  -- message is still that of its connection, the connection is in use or waits to be recycled.
  pub thread_recv-Fine :
      (now : ℕ) (m : Msg) (s : Server)
      → Known s m.msg_header
      → IsServer s
      → Fine 0 s (thread_recv_proc_func alloc now m s)
  unfolding thread_recv_proc_func
  thread_recv-Fine now m s known ok = elim (Option-cases (check_crc m.pkg)) [
    | inl bad ↦ rw (bad, thread_recv_proc_func) (Fine-refl s ok)
    | inr (body, good) ↦
        rw (good, thread_recv_proc_func) (dispatch_command-Fine now m body s known ok)
  ]
