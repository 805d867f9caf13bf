-- ===== src/Accept/Admission.antt =====
-- A descriptor that ngx_event_accept gives to a connection.
use net_server.Base.{
  ℕ, ◌≡◌, ◌≢◌, ◌⊎◌, inl, inr, refl, sym, ap, subst, ◌∙◌, Bool, some, ◌&&◌, not, arith, ◌==◌,
  Bool-cases, if◌then◌else◌,
}
use net_server.Base.Words.{inc32}
use net_server.Types.{Conn, read_request, write_request}
use net_server.Pool.{Pool, get_connection}
use net_server.Pool.Invariant.{
  IsConsistent, InUse, get_connection-IsConsistent, get_connection-InUse,
}
use net_server.Pool.Handing.{
  IsConsistent-conns, IsFresh, get_connection-same_use, get_connection-Handed,
}
use net_server.Timer.{TimerQueue, add_to_timer_queue}
use net_server.Server.{Server, conn_at, set_conn}
use net_server.Epoll.{oper_event}
use net_server.Accept.{Worker, take_in, enroll, watch}
use net_server.Accept.Refusal.{Refused, give_back}

-- The timers with one more for a connection, if timers are on.
abbrev pub timers_with : ℕ → ℕ → ℕ → Server → TimerQueue
timers_with now a seq s =
    if s.cfg.kick_time_enable == 1
    then add_to_timer_queue s.cfg now (record { conn = a; curr_sequence = seq }) s.timers
    else s.timers

-- A new client at the descriptor `fd` has the connection `a`, which was not in use.
pub record Admitted (now fd : ℕ) (s s' : Server) : Type 0 where
  pub a : ℕ
  pub fresh : IsFresh fd now (conn_at s' a)
  pub reads : (conn_at s' a).rhandler ≡ some read_request
  pub writes : (conn_at s' a).whandler ≡ some write_request
  pub was_free : ¬ InUse s.pool a
  pub in_use : InUse s'.pool a
  pub others : (b : ℕ) → InUse s.pool b → InUse s'.pool b × (conn_at s' b ≡ conn_at s b)
  pub same_use : (b : ℕ) → b ≢ a → InUse s'.pool b → InUse s.pool b
  pub counted : s'.pool.online_n ≡ inc32 s.pool.online_n
  pub timed : s'.timers ≡ timers_with now a (conn_at s' a).curr_sequence s
  pub closed : s'.closed ≡ s.closed

-- What the end of ngx_event_accept changes.
record Enrolled (now a : ℕ) (s s' : Server) : Type 0 where
  pool : s'.pool ≡ record s.pool { online_n = inc32 s.pool.online_n }
  timers : s'.timers ≡ timers_with now a (conn_at s a).curr_sequence s
  closed : s'.closed ≡ s.closed

enroll-Enrolled : (now a : ℕ) (s : Server) → Enrolled now a s (enroll now a s)
unfolding enroll
enroll-Enrolled now a s = elim (Bool-cases (s.cfg.kick_time_enable == 1)) [
  | inl on ↦ record { pool = ground arith; timers = ground arith; closed = ground arith }
  | inr off ↦ record { pool = ground arith; timers = ground arith; closed = ground arith }
]

-- The server with the connection taken from the pool, and with its handlers.
abbrev taken : ℕ → ℕ → Server → Server
taken now fd s = record s { pool = (get_connection fd now s.pool).1 }

abbrev watched : ℕ → ℕ → Server → Server
watched now fd s = set_conn (get_connection fd now s.pool).0 watch (taken now fd s)

watched-conn :
    (now fd : ℕ) (s : Server)
    → let a = (get_connection fd now s.pool).0 in
      (conn_at (watched now fd s) a ≡ watch (conn_at (taken now fd s) a))
      × ((b : ℕ) → b ≢ a → conn_at (watched now fd s) b ≡ conn_at (taken now fd s) b)
watched-conn now fd s = (ground arith, λ b ne. ground arith)

watch-IsFresh : (fd now : ℕ) (c : Conn) → IsFresh fd now c → IsFresh fd now (watch c)
unfolding oper_event
watch-IsFresh fd now c f = record {
  fd = f.fd;
  stat = f.stat;
  buf = f.buf;
  len = f.len;
  no_recv = f.no_recv;
  no_send = f.no_send;
  idle = f.idle;
  none_queued = f.none_queued;
  pinged = f.pinged;
}

watch-handlers :
    (c : Conn)
    → ((watch c).rhandler ≡ some read_request) × ((watch c).whandler ≡ some write_request)
unfolding oper_event
watch-handlers c = (refl, refl)

enrolled-IsConsistent :
    (p q : Pool) (n : ℕ) → q ≡ record p { online_n = n } → IsConsistent p → IsConsistent q
enrolled-IsConsistent p q n e v =
    let moved : IsConsistent (record p { online_n = n }) = record {
      total = v.total;
      free = v.free;
      recy = v.recy;
      once = v.once;
      apart = v.apart;
      fresh = v.fresh;
    } in
    subst IsConsistent (sym e) moved

enrolled-Admitted :
    (now fd : ℕ) (s : Server)
    → IsConsistent s.pool
    → let a = (get_connection fd now s.pool).0 in
      let s' = enroll now a (watched now fd s) in Admitted now fd s s' × IsConsistent s'.pool
enrolled-Admitted now fd s books =
    let r = get_connection fd now s.pool in
    let g = get_connection-InUse fd now s.pool books in
    let h = get_connection-Handed fd now s.pool in
    let t = watched now fd s in
    let wc = watched-conn now fd s in
    let n = enroll-Enrolled now r.0 t in
    let s' = enroll now r.0 t in
    let at : (b : ℕ) → conn_at s' b ≡ conn_at t b = λ b. ap (λ (q : Pool). q.conns b) n.pool in
    let at_a : conn_at s' r.0 ≡ watch (r.1.conns r.0) = at r.0 ∙ wc.0 in
    let w = watch-handlers (r.1.conns r.0) in
    (
      record {
        a = r.0;
        fresh = subst (IsFresh fd now) (sym at_a) (watch-IsFresh fd now (r.1.conns r.0) h.fresh);
        reads = ap (λ (c : Conn). c.rhandler) at_a ∙ w.0;
        writes = ap (λ (c : Conn). c.whandler) at_a ∙ w.1;
        was_free = g.1;
        in_use = subst (λ (q : Pool). InUse q r.0) (sym n.pool) g.0;
        others = λ b u.
            let ne : b ≢ r.0 = λ e. g.1 (subst (InUse s.pool) e u) in
            (
              subst (λ (q : Pool). InUse q b) (sym n.pool) (g.2 b u),
              at b ∙ wc.1 b ne ∙ h.others b ne,
            );
        same_use = λ b ne u.
            get_connection-same_use fd now s.pool b ne (subst (λ (q : Pool). InUse q b) n.pool u);
        counted = ap (λ (q : Pool). q.online_n) n.pool ∙ ap inc32 h.online;
        timed = n.timers ∙ ap (λ (c : Conn). timers_with now r.0 c.curr_sequence s) (sym (at r.0));
        closed = n.closed;
      },
      enrolled-IsConsistent t.pool s'.pool (inc32 t.pool.online_n) n.pool
          (IsConsistent-conns r.1 t.pool refl (get_connection-IsConsistent fd now s.pool books)),
    )

pub take_in-Outcome :
    (now : ℕ) (nonblocking added : Bool) (fd : ℕ) (w : Worker)
    → IsConsistent w.server.pool
    → let s' = (take_in now nonblocking added fd w).server in
      (Admitted now fd w.server s' ⊎ Refused fd w.server s') × IsConsistent s'.pool
unfolding take_in
take_in-Outcome now nonblocking added fd w books =
    let s = w.server in
    let r = get_connection fd now s.pool in
    let h = get_connection-Handed fd now s.pool in
    let wc = watched-conn now fd s in
    let early = give_back now fd s (taken now fd s) books refl h.fresh.fd h.others refl refl in
    let late =
      give_back now fd s (watched now fd s) books refl
        (ap (λ (c : Conn). c.fd) wc.0 ∙ (watch-IsFresh fd now (r.1.conns r.0) h.fresh).fd)
        (λ b ne. wc.1 b ne ∙ h.others b ne) refl refl in
    let good = enrolled-Admitted now fd s books in
    elim (Bool-cases (not w.use_accept4 && not nonblocking)) [
      | inl blocks ↦ rw blocks (inr early.0, early.1)
      | inr fine ↦ rw fine (elim (Bool-cases added) [
        | inl yes_added ↦ rw yes_added (inl good.0, good.1)
        | inr not_added ↦ rw not_added (inr late.0, late.1)
      ])
    ]
