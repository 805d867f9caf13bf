-- ===== src/EventLoop/Fine.antt =====
-- What the handlers of an event keep: the books of the server, and the other clients.
use net_server.Base.{
  ℕ, suc, ◌+◌, ◌^◌, ◌<◌, ◌≤◌, ◌≡◌, refl, sym, ap, subst, ◌∙◌, ◌⊎◌, inl, inr, Bool, false, Option,
  none, some, List, [], ◌∷◌, arith, length, Bool-cases, ◌==◌,
}
use net_server.Base.Words.{dec32}
use net_server.Types.{MsgHeader, event_accept, read_request, write_request}
use net_server.Epoll.{has, epollout}
use net_server.Pool.Invariant.{IsConsistent}
use net_server.Pool.{modify}
use net_server.Pool.Handing.{IsConsistent-conns}
use net_server.Recv.{read_bytes}
use net_server.Timer.{Entry, TimerQueue}
use net_server.Timer.Order.{
  IsTimerQueue, without, delete-IsTimerQueue, add-IsTimerQueue, length-insert_timer,
}
use net_server.Server.{
  Server, conn_at, set_conn, zd_close_socket_proc, recvproc, handle_bytes, close_connection,
  close_fd, drop_throw_send, forget_timers, read_request_handler, RecvResult, received, peer_closed,
  would_block, interrupted, conn_reset, other_error,
}
use net_server.Server.Closing.{zd_close-IsClosed}
use net_server.Server.Queueing.{IsSendQueue, zd_close-sends}
use net_server.Sender.{SendOutcome, write_request_handler}
use net_server.Accept.{
  Worker, LockStatus, acquired, owner_dead, not_recoverable, busy, other_status, AcceptResult,
}
use net_server.Accept as Accept
use net_server.Accept.Admission.{timers_with}
use net_server.Accept.Outcome.{Outcome, event_accept-Outcome, handed}
use net_server.EventLoop.{Event}
use net_server.EventLoop.Handlers.{Held}
use net_server.EventLoop.Steady.{
  Steady, Steady-refl, Steady-trans, zd_close-Steady, stored-Steady, set_conn-Steady,
  write_request_handler-Steady, write_request_handler-rest,
}
use net_server.EventLoop.Accepting.{event_accept-Steady}

-- The pool's books and the timer queue are right, and so is the count of the messages to send.
pub record IsServer (s : Server) : Type 0 where
  pub books : IsConsistent s.pool
  pub timers : IsTimerQueue s.timers
  pub sends : IsSendQueue s.sends

-- A connection that epoll watches: it belongs to a client or to a listening socket, or waits to be
-- recycled, and has the handlers of one or the other. EPOLLOUT is never asked for with a listening
-- socket.
abbrev pub IsWatched : Server → Event → Type 0
IsWatched s e =
    Held s.pool e.conn
    × (((conn_at s e.conn).rhandler ≡ some event_accept) × (has e.revents epollout ≡ false)
        ⊎ ((conn_at s e.conn).rhandler ≡ some read_request)
          × ((conn_at s e.conn).whandler ≡ some write_request))

pub IsWatched-Steady : (s s' : Server) (e : Event) → Steady s s' → IsWatched s e → IsWatched s' e
IsWatched-Steady s s' e st (held, kind) =
    let (r, w) = st.handlers e.conn held in
    (
      st.held e.conn held,
      elim kind [
        | inl listens ↦ inl (r ∙ listens.0, listens.1)
        | inr client ↦ inr (r ∙ client.0, w ∙ client.1)
      ],
    )

zd_close-IsServer :
    (a now : ℕ) (s : Server) → Held s.pool a → IsServer s → IsServer (zd_close_socket_proc a now s)
zd_close-IsServer a now s held ok =
    let c = zd_close-IsClosed a now s ok.books ok.timers held in
    record {
      books = c.1;
      timers = c.2;
      sends = subst IsSendQueue (sym (zd_close-sends a now s)) ok.sends;
    }

event_accept-sends :
    (now : ℕ) (status : LockStatus) (net : Bool → AcceptResult) (nonblocking added : Bool)
    (w : Worker)
    → (Accept.event_accept now status net nonblocking added w).server.sends ≡ w.server.sends
unfolding Accept.event_accept Accept.accept_one Accept.admit Accept.take_in Accept.enroll
    close_connection close_fd
event_accept-sends now acquired net nonblocking added w = ground arith
event_accept-sends now owner_dead net nonblocking added w = refl
event_accept-sends now not_recoverable net nonblocking added w = refl
event_accept-sends now busy net nonblocking added w = refl
event_accept-sends now other_status net nonblocking added w = refl

zd_close-timers :
    (a now : ℕ) (s : Server) → (zd_close_socket_proc a now s).timers ≡ (forget_timers a s).timers
unfolding zd_close_socket_proc close_fd drop_throw_send
zd_close-timers a now s = ground arith

length-without : (a : ℕ) (xs : List Entry) → length (without a xs) ≤ length xs
length-without a [] = omega arith
length-without a ((t, h) ∷ xs) = ground (arith, length-without a xs)

length-forget_timers :
    (a : ℕ) (s : Server)
    → IsTimerQueue s.timers
    → length (forget_timers a s).timers.queue_map ≤ length s.timers.queue_map
unfolding forget_timers
length-forget_timers a s ok =
    let d = (delete-IsTimerQueue a s.timers ok).1 in
    let le = length-without a s.timers.queue_map in
    elim (Bool-cases (s.cfg.kick_time_enable == 1)) [
      | inl on ↦ rw (on, d) le
      | inr off ↦ rw off (omega arith)
    ]

-- A step that keeps the server right, touches no other client, and adds at most `k` timers.
pub record Fine (k : ℕ) (s s' : Server) : Type 0 where
  pub server : IsServer s'
  pub steady : Steady s s'
  pub timers_le : length s'.timers.queue_map ≤ k + length s.timers.queue_map

pub Fine-refl : (s : Server) → IsServer s → Fine 0 s s
Fine-refl s ok = record { server = ok; steady = Steady-refl s; timers_le = omega arith }

pub Fine-trans : (k n : ℕ) (s t u : Server) → Fine k s t → Fine n t u → Fine (n + k) s u
Fine-trans k n s t u f g = record {
  server = g.server;
  steady = Steady-trans s t u f.steady g.steady;
  timers_le = omega (arith, f.timers_le, g.timers_le);
}

pub zd_close-Fine :
    (a now : ℕ) (s : Server) → Held s.pool a → IsServer s → Fine 0 s (zd_close_socket_proc a now s)
zd_close-Fine a now s held ok =
    let le = length-forget_timers a s ok.timers in
    record {
      server = zd_close-IsServer a now s held ok;
      steady = zd_close-Steady a now s held;
      timers_le = rw (zd_close-timers a now s) (omega (arith, le));
    }

handle_bytes-Fine :
    (alloc : ℕ → List ℕ) (a now ms : ℕ) (bs : List ℕ) (s : Server)
    → Held s.pool a
    → IsServer s
    → Fine 0 s (handle_bytes alloc a now ms bs s)
unfolding handle_bytes
handle_bytes-Fine alloc a now ms bs s held ok =
    let r = read_bytes alloc s.cfg a ms bs (conn_at s a) s.recvs in
    let t : Server = record s { pool = modify a (λ _. r.conn) s.pool; recvs = r.queue } in
    let moved : IsServer t = record {
      books = IsConsistent-conns s.pool t.pool refl ok.books;
      timers = ok.timers;
      sends = ok.sends;
    } in
    let first : Fine 0 s t = record {
      server = moved;
      steady = stored-Steady alloc a ms bs s;
      timers_le = omega arith;
    } in
    elim (Bool-cases r.is_flood) [
      | inl flood ↦ rw flood (
          Fine-trans 0 0 s t (zd_close_socket_proc a now t) first
            (zd_close-Fine a now t held moved))
      | inr fine ↦ rw fine first
    ]

pub read_request_handler-Fine :
    (alloc : ℕ → List ℕ) (a now ms : ℕ) (result : RecvResult) (s : Server)
    → Held s.pool a
    → IsServer s
    → Fine 0 s (read_request_handler alloc a now ms result s)
unfolding read_request_handler recvproc
read_request_handler-Fine alloc a now ms (received bs) s held ok =
    handle_bytes-Fine alloc a now ms bs s held ok
read_request_handler-Fine alloc a now ms would_block s held ok = Fine-refl s ok
read_request_handler-Fine alloc a now ms interrupted s held ok = Fine-refl s ok
read_request_handler-Fine alloc a now ms peer_closed s held ok = zd_close-Fine a now s held ok
read_request_handler-Fine alloc a now ms conn_reset s held ok = zd_close-Fine a now s held ok
read_request_handler-Fine alloc a now ms other_error s held ok = zd_close-Fine a now s held ok

pub write_request_handler-Fine :
    (a : ℕ) (o : SendOutcome) (s : Server) → IsServer s → Fine 0 s (write_request_handler a o s)
write_request_handler-Fine a o s ok =
    let k = write_request_handler-rest a o s in
    record {
      server = record {
        books = IsConsistent-conns s.pool (write_request_handler a o s).pool k.0 ok.books;
        timers = subst IsTimerQueue (sym k.1) ok.timers;
        sends = record {
          counted = omega (arith, k.2, k.3, ok.sends.counted);
          bounded = omega (arith, k.3, ok.sends.bounded);
        };
      };
      steady = write_request_handler-Steady a o s;
      timers_le = omega (arith, ap (λ (q : TimerQueue). length q.queue_map) k.1);
    }

timers_with-IsTimerQueue :
    (now a seq : ℕ) (s : Server)
    → IsTimerQueue s.timers
    → suc (length s.timers.queue_map) < 2 ^ 64
    → IsTimerQueue (timers_with now a seq s)
      × (length (timers_with now a seq s).queue_map ≤ suc (length s.timers.queue_map))
timers_with-IsTimerQueue now a seq s ok room =
    let h : MsgHeader = record { conn = a; curr_sequence = seq } in
    let added = add-IsTimerQueue s.cfg now h s.timers ok room in
    let len = length-insert_timer (now + s.cfg.wait_time) h s.timers.queue_map in
    elim (Bool-cases (s.cfg.kick_time_enable == 1)) [
      | inl on ↦ rw on (added.0, omega (arith, ap length added.1, len))
      | inr off ↦ rw off (ok, omega arith)
    ]

Outcome-timers :
    (now : ℕ) (o : Option ℕ) (s s' : Server)
    → Outcome now o s s'
    → IsTimerQueue s.timers
    → suc (length s.timers.queue_map) < 2 ^ 64
    → IsTimerQueue s'.timers × (length s'.timers.queue_map ≤ suc (length s.timers.queue_map))
Outcome-timers now none s s' e ok room =
    let same = ap (λ (x : Server). x.timers) e in rw same (ok, omega arith)
Outcome-timers now (some fd) s s' (inl a) ok room =
    rw a.timed (timers_with-IsTimerQueue now a.a (conn_at s' a.a).curr_sequence s ok room)
Outcome-timers now (some fd) s s' (inr r) ok room = rw r.timers (ok, omega arith)

pub event_accept-Fine :
    (now : ℕ) (status : LockStatus) (net : Bool → AcceptResult) (nonblocking added : Bool)
    (w : Worker)
    → IsServer w.server
    → suc (length w.server.timers.queue_map) < 2 ^ 64
    → Fine 1 w.server (Accept.event_accept now status net nonblocking added w).server
event_accept-Fine now status net nonblocking added w ok room =
    let s = w.server in
    let s' = (Accept.event_accept now status net nonblocking added w).server in
    let out = event_accept-Outcome now status net nonblocking added w ok.books in
    let t = Outcome-timers now (handed status net w) s s' out.0 ok.timers room in
    record {
      server = record {
        books = out.1;
        timers = t.0;
        sends =
            subst IsSendQueue (sym (event_accept-sends now status net nonblocking added w))
              ok.sends;
      };
      steady = event_accept-Steady now status net nonblocking added w ok.books;
      timers_le = omega (arith, t.1);
    }

pub Fine-weaken : (s s' : Server) → Fine 0 s s' → Fine 1 s s'
Fine-weaken s s' f = record {
  server = f.server;
  steady = f.steady;
  timers_le = omega (arith, f.timers_le);
}

pub drop_count-Fine :
    (a : ℕ) (s : Server)
    → IsServer s
    → Fine 0 s (set_conn a (λ c. record c { throw_send_count = dec32 c.throw_send_count }) s)
drop_count-Fine a s ok = record {
  server = record {
    books =
        IsConsistent-conns s.pool
          (modify a (λ c. record c { throw_send_count = dec32 c.throw_send_count }) s.pool) refl
          ok.books;
    timers = ok.timers;
    sends = ok.sends;
  };
  steady =
      set_conn-Steady a (λ c. record c { throw_send_count = dec32 c.throw_send_count }) s
        (refl, refl);
  timers_le = omega arith;
}
