-- ===== src/Accept/Refusal.antt =====
-- A descriptor that ngx_event_accept closes again.
use net_server.Base.{ℕ, ◌≡◌, ◌≢◌, ◌↔◌, refl, sym, ap, subst, ◌∙◌, some, ◌∷◌, arith}
use net_server.Pool.{Pool, get_connection, free_connection}
use net_server.Pool.Invariant.{
  IsConsistent, InUse, get_connection-IsConsistent, get_connection-InUse,
  free_connection-IsConsistent,
}
use net_server.Pool.Handing.{
  IsConsistent-conns, get_connection-Handed, get_connection-same_use, free_connection-InUse,
  free_connection-keeps,
}
use net_server.Server.{Server, conn_at, close_connection, close_fd}
use net_server.Accept.{refuse}

-- The descriptor is closed again, and no client notices.
pub record Refused (fd : ℕ) (s s' : Server) : Type 0 where
  pub closed : s'.closed ≡ fd ∷ s.closed
  pub same_use : (b : ℕ) → InUse s.pool b ↔ InUse s'.pool b
  pub others : (b : ℕ) → InUse s.pool b → conn_at s' b ≡ conn_at s b
  pub online : s'.pool.online_n ≡ s.pool.online_n
  pub timers : s'.timers ≡ s.timers

pub refuse-Refused : (fd : ℕ) (s : Server) → Refused fd s (refuse fd s)
refuse-Refused fd s = record {
  closed = refl;
  same_use = λ b. (λ u. u, λ u. u);
  others = λ b u. refl;
  online = refl;
  timers = refl;
}

-- What ngx_close_connection does to a connection that has a descriptor.
record Dropped (a fd : ℕ) (s s' : Server) : Type 0 where
  pool : s'.pool ≡ record (free_connection a s.pool) { conns = s'.pool.conns }
  closed : s'.closed ≡ fd ∷ s.closed
  others : (b : ℕ) → b ≢ a → conn_at s' b ≡ conn_at s b
  timers : s'.timers ≡ s.timers

close_connection-Dropped :
    (a fd : ℕ) (s : Server) → (conn_at s a).fd ≡ some fd → Dropped a fd s (close_connection a s)
unfolding close_connection close_fd
close_connection-Dropped a fd s e =
    let k = free_connection-keeps a s.pool in
    let e' : ((free_connection a s.pool).conns a).fd ≡ some fd = k.2 ∙ e in
    record {
      pool = ground (arith, e');
      closed = ground (arith, e');
      others = λ b ne. ground (arith, e', k.3 b ne);
      timers = ground (arith, e');
    }

-- A connection that was handed out a moment ago is given back with its descriptor.
pub give_back :
    (now fd : ℕ) (s t : Server)
    → IsConsistent s.pool
    → let r = get_connection fd now s.pool in
      t.pool ≡ record r.1 { conns = t.pool.conns }
      → (conn_at t r.0).fd ≡ some fd
      → ((b : ℕ) → b ≢ r.0 → conn_at t b ≡ conn_at s b)
      → t.closed ≡ s.closed
      → t.timers ≡ s.timers
      → Refused fd s (close_connection r.0 t) × IsConsistent (close_connection r.0 t).pool
give_back now fd s t books lists has same closed timers =
    let r = get_connection fd now s.pool in
    let g = get_connection-InUse fd now s.pool books in
    let h = get_connection-Handed fd now s.pool in
    let d = close_connection-Dropped r.0 fd t has in
    let f = free_connection-InUse r.0 t.pool in
    let k = free_connection-keeps r.0 t.pool in
    let c = close_connection r.0 t in
    let in_t : InUse t.pool r.0 = subst (λ (q : Pool). InUse q r.0) (sym lists) g.0 in
    (
      record {
        closed = d.closed ∙ ap (λ fds. fd ∷ fds) closed;
        same_use = λ b. (
          λ u.
              subst (λ (q : Pool). InUse q b) (sym d.pool)
                ((f.1 b (λ e. g.1 (subst (InUse s.pool) e u))).0
                  (subst (λ (q : Pool). InUse q b) (sym lists) (g.2 b u))),
          λ u.
              let v = subst (λ (q : Pool). InUse q b) d.pool u in
              let ne : b ≢ r.0 = λ e. f.0 (subst (InUse (free_connection r.0 t.pool)) e v) in
              get_connection-same_use fd now s.pool b ne
                (subst (λ (q : Pool). InUse q b) lists ((f.1 b ne).1 v)),
        );
        others = λ b u.
            let ne : b ≢ r.0 = λ e. g.1 (subst (InUse s.pool) e u) in d.others b ne ∙ same b ne;
        online =
            ap (λ (q : Pool). q.online_n) d.pool
            ∙ k.1
            ∙ ap (λ (q : Pool). q.online_n) lists
            ∙ h.online;
        timers = d.timers ∙ timers;
      },
      IsConsistent-conns (free_connection r.0 t.pool) c.pool d.pool (
          free_connection-IsConsistent r.0 t.pool
            (IsConsistent-conns r.1 t.pool lists (get_connection-IsConsistent fd now s.pool books))
            in_t),
    )
