-- ===== src/EventLoop/Accepting.antt =====
-- ngx_event_accept, seen from the connections that clients have or that wait to be recycled.
use net_server.Base.{
  ℕ, ◌<◌, ◌≡◌, ◌≢◌, refl, sym, ap, subst, ◌∙◌, ◌⊎◌, inl, inr, Bool, ◌&&◌, not, true, Option, none,
  some, ◌*◌, arith, ltb, length, Bool-cases, Option-cases,
}
use native.Mathlib.Decide.{ℕ_discrete}
use net_server.Types.{Conn}
use net_server.Pool.{get_connection, free_connection}
use net_server.Pool.Count.{occurs}
use net_server.Pool.Invariant.{IsConsistent, InUse}
use net_server.Pool.Handing.{get_connection-Handed, get_connection-not_waiting}
use net_server.Server.{Server, conn_at, set_conn, close_connection, close_fd}
use net_server.Accept.{
  LockStatus, acquired, owner_dead, not_recoverable, busy, other_status, AcceptResult, Worker,
  try_accept, take_in, admit, accept_one, event_accept, enroll, watch, at_least32,
}
use net_server.Accept.Outcome.{Outcome, event_accept-Outcome, handed}
use net_server.EventLoop.Steady.{Steady, IsClient}

-- Only the connection `a` is touched, and it does not wait to be recycled.
record Others (a : ℕ) (s s' : Server) : Type 0 where
  recy : s'.pool.recy_list ≡ s.pool.recy_list
  same : (b : ℕ) → b ≢ a → conn_at s' b ≡ conn_at s b

Others-trans : (a : ℕ) (s t u : Server) → Others a s t → Others a t u → Others a s u
Others-trans a s t u h k = record {
  recy = k.recy ∙ h.recy;
  same = λ b ne. k.same b ne ∙ h.same b ne;
}

close_connection-Others : (a : ℕ) (s : Server) → Others a s (close_connection a s)
unfolding close_connection close_fd free_connection
close_connection-Others a s = record { recy = ground arith; same = λ b ne. ground arith }

watch-Others : (a : ℕ) (s : Server) → Others a s (set_conn a watch s)
watch-Others a s = record { recy = refl; same = λ b ne. ground arith }

enroll-Others : (now a : ℕ) (s : Server) → Others a s (enroll now a s)
unfolding enroll
enroll-Others now a s = record { recy = ground arith; same = λ b ne. ground arith }

-- Those that wait to be recycled are as they were.
record Waiting (s s' : Server) : Type 0 where
  recy : s'.pool.recy_list ≡ s.pool.recy_list
  same : (b : ℕ) → 0 < occurs b s.pool.recy_list → conn_at s' b ≡ conn_at s b

Waiting-refl : (s : Server) → Waiting s s
Waiting-refl s = record { recy = refl; same = λ b h. refl }

take_in-Others :
    (now : ℕ) (nonblocking added : Bool) (fd : ℕ) (w : Worker)
    → Others
        (get_connection fd now w.server.pool).0
        w.server
        (take_in now nonblocking added fd w).server
unfolding take_in
take_in-Others now nonblocking added fd w =
    let s = w.server in
    let r = get_connection fd now s.pool in
    let h = get_connection-Handed fd now s.pool in
    let t : Server = record s { pool = r.1 } in
    let u : Server = set_conn r.0 watch t in
    let first : Others r.0 s t = record { recy = h.recy; same = h.others } in
    let watched = Others-trans r.0 s t u first (watch-Others r.0 t) in
    elim (Bool-cases (not w.use_accept4 && not nonblocking)) [
      | inl blocks ↦
          rw blocks
            (Others-trans r.0 s t (close_connection r.0 t) first (close_connection-Others r.0 t))
      | inr fine ↦ rw fine (elim (Bool-cases added) [
        | inl yes_added ↦
            rw yes_added (Others-trans r.0 s u (enroll now r.0 u) watched (enroll-Others now r.0 u))
        | inr not_added ↦
            rw not_added (
              Others-trans r.0 s u (close_connection r.0 u) watched (close_connection-Others r.0 u))
      ])
    ]

take_in-Waiting :
    (now : ℕ) (nonblocking added : Bool) (fd : ℕ) (w : Worker)
    → IsConsistent w.server.pool
    → Waiting w.server (take_in now nonblocking added fd w).server
take_in-Waiting now nonblocking added fd w books =
    let o = take_in-Others now nonblocking added fd w in
    let r = get_connection fd now w.server.pool in
    let out = get_connection-not_waiting fd now w.server.pool books in
    record {
      recy = o.recy;
      same = λ b h.
          o.same b
            (λ e. absurd (omega (arith, h, out, ap (λ x. occurs x w.server.pool.recy_list) e)));
    }

admit-Waiting :
    (now : ℕ) (nonblocking added : Bool) (fd : ℕ) (w : Worker)
    → IsConsistent w.server.pool
    → Waiting w.server (admit now nonblocking added fd w).server
unfolding admit
admit-Waiting now nonblocking added fd w books =
    let s = w.server in
    elim (Bool-cases (at_least32 s.pool.online_n s.cfg.worker_connections)) [
      | inl full ↦ rw full (record { recy = refl; same = λ b h. refl })
      | inr room ↦
          rw room
            (elim (Bool-cases (
              ltb (s.cfg.worker_connections * 5) (length s.pool.connection_list)
              && ltb (length s.pool.free_list) s.cfg.worker_connections)) [
                | inl crowded ↦ rw crowded (record { recy = refl; same = λ b h. refl })
                | inr space ↦ rw space (take_in-Waiting now nonblocking added fd w books)
              ])
    ]

event_accept-Waiting :
    (now : ℕ) (status : LockStatus) (net : Bool → AcceptResult) (nonblocking added : Bool)
    (w : Worker)
    → IsConsistent w.server.pool
    → Waiting w.server (event_accept now status net nonblocking added w).server
unfolding event_accept accept_one
event_accept-Waiting now acquired net nonblocking added w books =
    elim (Option-cases (try_accept w.use_accept4 net).0) [
      | inl nothing ↦ rw (nothing, accept_one) (Waiting-refl w.server)
      | inr (fd, got) ↦
          rw (got, accept_one)
            (admit-Waiting now nonblocking added fd
              (record w { use_accept4 = (try_accept w.use_accept4 net).1; holds = true }) books)
    ]
event_accept-Waiting now owner_dead net nonblocking added w books = Waiting-refl w.server
event_accept-Waiting now not_recoverable net nonblocking added w books = Waiting-refl w.server
event_accept-Waiting now busy net nonblocking added w books = Waiting-refl w.server
event_accept-Waiting now other_status net nonblocking added w books = Waiting-refl w.server

-- What accepting leaves to a connection that a client has.
Outcome-InUse :
    (now : ℕ) (o : Option ℕ) (s s' : Server)
    → Outcome now o s s'
    → (b : ℕ) → InUse s.pool b
    → InUse s'.pool b × (conn_at s' b ≡ conn_at s b)
Outcome-InUse now none s s' e b h =
    (subst (λ (x : Server). InUse x.pool b) (sym e) h, ap (λ (x : Server). conn_at x b) e)
Outcome-InUse now (some fd) s s' (inl a) b h = a.others b h
Outcome-InUse now (some fd) s s' (inr r) b h = ((r.same_use b).0 h, r.others b h)

-- Only a new client comes into use.
Outcome-newly :
    (now : ℕ) (o : Option ℕ) (s s' : Server)
    → Outcome now o s s'
    → (b : ℕ) → InUse s'.pool b
    → InUse s.pool b ⊎ IsClient s' b
Outcome-newly now none s s' e b h = inl (subst (λ (x : Server). InUse x.pool b) e h)
Outcome-newly now (some fd) s s' (inl a) b h = elim (ℕ_discrete b a.a) [
  | yes new ↦ inr (subst (IsClient s') (sym new) (a.reads, a.writes))
  | no other ↦ inl (a.same_use b other h)
]
Outcome-newly now (some fd) s s' (inr r) b h = inl ((r.same_use b).1 h)

pub event_accept-Steady :
    (now : ℕ) (status : LockStatus) (net : Bool → AcceptResult) (nonblocking added : Bool)
    (w : Worker)
    → IsConsistent w.server.pool
    → Steady w.server (event_accept now status net nonblocking added w).server
event_accept-Steady now status net nonblocking added w books =
    let s = w.server in
    let s' = (event_accept now status net nonblocking added w).server in
    let out = event_accept-Outcome now status net nonblocking added w books in
    let q = event_accept-Waiting now status net nonblocking added w books in
    let in_use = Outcome-InUse now (handed status net w) s s' out.0 in
    record {
      held = λ b h. elim h [
        | inl u ↦ inl (in_use b u).0
        | inr x ↦ inr (subst (λ l. 0 < occurs b l) (sym q.recy) x)
      ];
      handlers = λ b h.
          let same : conn_at s' b ≡ conn_at s b = elim h [
            | inl u ↦ (in_use b u).1
            | inr x ↦ q.same b x
          ] in
          (ap (λ (c : Conn). c.rhandler) same, ap (λ (c : Conn). c.whandler) same);
      newly = λ b h. elim h [
        | inl u ↦ elim (Outcome-newly now (handed status net w) s s' out.0 b u) [
          | inl old ↦ inl (inl old)
          | inr client ↦ inr client
        ]
        | inr x ↦ inl (inr (subst (λ l. 0 < occurs b l) q.recy x))
      ];
    }
