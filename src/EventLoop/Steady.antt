-- ===== src/EventLoop/Steady.antt =====
-- The handlers of an event, seen from all connections: those that a client has keep their handlers.
use net_server.Base.{ℕ, length, ◌≡◌, refl, sym, ap, subst, ◌∙◌, ◌⊎◌, inl, inr, some, List, arith}
use net_server.Types.{Conn, read_request, write_request}
use net_server.Epoll.{oper_event}
use net_server.Pool.{Pool, modify}
use net_server.Recv.{read_bytes}
use net_server.Server.{
  Server, conn_at, set_conn, zd_close_socket_proc, close_fd, drop_throw_send, forget_timers,
}
use net_server.Sender.{
  SendOutcome, sent_bytes, sent_zero, buffer_full, broken, write_request_handler,
}
use net_server.EventLoop.Handlers.{
  SameHandlers, Held, in_recy-Held, in_recy-back, in_recy-SameHandlers, read_bytes-SameHandlers,
}

-- A step that leaves the lists of the pool alone.
pub record Calm (s s' : Server) : Type 0 where
  pub lists : s'.pool ≡ record s.pool { conns = s'.pool.conns }
  pub handlers : (b : ℕ) → SameHandlers (conn_at s b) (conn_at s' b)

pub Calm-trans : (s t u : Server) → Calm s t → Calm t u → Calm s u
Calm-trans s t u h k = record {
  lists = k.lists ∙ ap (λ (p : Pool). record p { conns = u.pool.conns }) h.lists;
  handlers = λ b. ((k.handlers b).0 ∙ (h.handlers b).0, (k.handlers b).1 ∙ (h.handlers b).1);
}

-- The handlers of a client.
abbrev pub IsClient : Server → ℕ → Type 0
IsClient s a =
    ((conn_at s a).rhandler ≡ some read_request) × ((conn_at s a).whandler ≡ some write_request)

-- What an event leaves to every connection that a client has, and which connections are new.
pub record Steady (s s' : Server) : Type 0 where
  pub held : (b : ℕ) → Held s.pool b → Held s'.pool b
  pub handlers : (b : ℕ) → Held s.pool b → SameHandlers (conn_at s b) (conn_at s' b)
  pub newly : (b : ℕ) → Held s'.pool b → Held s.pool b ⊎ IsClient s' b

pub Steady-refl : (s : Server) → Steady s s
Steady-refl s = record { held = λ b h. h; handlers = λ b h. (refl, refl); newly = λ b h. inl h }

pub Steady-trans : (s t u : Server) → Steady s t → Steady t u → Steady s u
Steady-trans s t u h k = record {
  held = λ b x. k.held b (h.held b x);
  handlers = λ b x.
      let first = h.handlers b x in
      let second = k.handlers b (h.held b x) in (second.0 ∙ first.0, second.1 ∙ first.1);
  newly = λ b x. elim (k.newly b x) [
    | inr client ↦ inr client
    | inl old ↦ elim (h.newly b old) [
      | inl older ↦ inl older
      | inr client ↦ let same = k.handlers b old in inr (same.0 ∙ client.0, same.1 ∙ client.1)
    ]
  ];
}

pub Calm-Steady : (s s' : Server) → Calm s s' → Steady s s'
Calm-Steady s s' c = record {
  held = λ b h. subst (λ (p : Pool). Held p b) (sym c.lists) h;
  handlers = λ b h. c.handlers b;
  newly = λ b h. inl (subst (λ (p : Pool). Held p b) c.lists h);
}

set_conn-Calm :
    (a : ℕ) (f : Conn → Conn) (s : Server)
    → SameHandlers (conn_at s a) (f (conn_at s a))
    → Calm s (set_conn a f s)
set_conn-Calm a f s h = record { lists = refl; handlers = λ b. ground (arith, h) }

forget_timers-Calm : (a : ℕ) (s : Server) → Calm s (forget_timers a s)
unfolding forget_timers
forget_timers-Calm a s = record { lists = ground arith; handlers = λ b. ground arith }

close_fd-Calm : (a : ℕ) (s : Server) → Calm s (close_fd a s)
unfolding close_fd
close_fd-Calm a s = record { lists = ground arith; handlers = λ b. ground arith }

drop_throw_send-Calm : (a : ℕ) (s : Server) → Calm s (drop_throw_send a s)
unfolding drop_throw_send
drop_throw_send-Calm a s = record { lists = ground arith; handlers = λ b. ground arith }

pub zd_close-Steady :
    (a now : ℕ) (s : Server) → Held s.pool a → Steady s (zd_close_socket_proc a now s)
unfolding zd_close_socket_proc
zd_close-Steady a now s own =
    let t = forget_timers a s in
    let u = close_fd a t in
    let v = drop_throw_send a u in
    let calm =
      Calm-trans s u v (Calm-trans s t u (forget_timers-Calm a s) (close_fd-Calm a t))
        (drop_throw_send-Calm a u) in
    let first = Calm-Steady s v calm in
    Steady-trans s v (zd_close_socket_proc a now s) first (record {
      held = λ b h. in_recy-Held a now b v.pool h;
      handlers = λ b h. in_recy-SameHandlers a now b v.pool;
      newly = λ b h. inl (in_recy-back a now b v.pool (first.held a own) h);
    })

-- The bytes of a read are taken in.
pub stored-Steady :
    (alloc : ℕ → List ℕ) (a ms : ℕ) (bs : List ℕ) (s : Server)
    → let r = read_bytes alloc s.cfg a ms bs (conn_at s a) s.recvs in
      Steady s (record s { pool = modify a (λ _. r.conn) s.pool; recvs = r.queue })
stored-Steady alloc a ms bs s =
    let r = read_bytes alloc s.cfg a ms bs (conn_at s a) s.recvs in
    let t : Server = record s { pool = modify a (λ _. r.conn) s.pool; recvs = r.queue } in
    let same = read_bytes-SameHandlers alloc s.cfg a ms bs (conn_at s a) s.recvs in
    Calm-Steady s t (record { lists = refl; handlers = λ b. ground (arith, same) })

pub write_request_handler-Steady :
    (a : ℕ) (o : SendOutcome) (s : Server) → Steady s (write_request_handler a o s)
unfolding write_request_handler oper_event
write_request_handler-Steady a (sent_bytes n) s =
    Calm-Steady s (write_request_handler a (sent_bytes n) s)
      (record { lists = ground arith; handlers = λ b. ground arith })
write_request_handler-Steady a sent_zero s =
    Calm-Steady s (write_request_handler a sent_zero s)
      (record { lists = ground arith; handlers = λ b. ground arith })
write_request_handler-Steady a buffer_full s =
    Calm-Steady s (write_request_handler a buffer_full s)
      (record { lists = ground arith; handlers = λ b. ground arith })
write_request_handler-Steady a broken s =
    Calm-Steady s (write_request_handler a broken s)
      (record { lists = ground arith; handlers = λ b. ground arith })

pub write_request_handler-rest :
    (a : ℕ) (o : SendOutcome) (s : Server)
    → let s' = write_request_handler a o s in
      (s'.pool ≡ record s.pool { conns = s'.pool.conns })
      × (s'.timers ≡ s.timers)
      × (s'.sends.count ≡ s.sends.count)
      × (length s'.sends.msgs ≡ length s.sends.msgs)
unfolding write_request_handler oper_event
write_request_handler-rest a (sent_bytes n) s =
    (ground arith, ground arith, ground arith, ground arith)
write_request_handler-rest a sent_zero s = (refl, refl, refl, refl)
write_request_handler-rest a buffer_full s = (refl, refl, refl, refl)
write_request_handler-rest a broken s = (refl, refl, refl, refl)

pub set_conn-Steady :
    (a : ℕ) (f : Conn → Conn) (s : Server)
    → SameHandlers (conn_at s a) (f (conn_at s a))
    → Steady s (set_conn a f s)
set_conn-Steady a f s h = Calm-Steady s (set_conn a f s) (set_conn-Calm a f s h)
