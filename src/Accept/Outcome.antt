-- ===== src/Accept/Outcome.antt =====
-- What ngx_event_accept does on every path: with the descriptor, with the mutex of the processes, and
-- with the limit on users.
use net_server.Base.{
  ℕ, ◌*◌, ◌^◌, ◌≤◌, ◌<◌, ◌≡◌, ◌⊎◌, inl, inr, refl, subst, Bool, true, false, Option, none, some,
  ◌&&◌, arith, length, ltb, Bool-cases, Option-cases,
}
use net_server.Pool.Invariant.{IsConsistent}
use net_server.Server.{Server}
use net_server.Accept.{
  LockStatus, acquired, owner_dead, not_recoverable, busy, other_status, AcceptResult, accepted,
  no_connection, not_implemented, failed, Worker, try_accept, take_in, admit, accept_one,
  event_accept, at_least32,
}
use net_server.Accept.Refusal.{Refused, refuse-Refused}
use net_server.Accept.Admission.{Admitted, take_in-Outcome}

-- The descriptor of a result.
abbrev pub fd_of : AcceptResult → Option ℕ
fd_of (accepted fd) = some fd
fd_of no_connection = none
fd_of not_implemented = none
fd_of failed = none

-- The descriptor that the kernel hands over: that of accept4, or that of accept if accept4 is missing or
-- was found missing before.
abbrev pub kernel_fd : Bool → (Bool → AcceptResult) → Option ℕ
kernel_fd false net = fd_of (net false)
kernel_fd true net = elim (net true) [
  | not_implemented ↦ fd_of (net false)
  | accepted fd ↦ some fd
  | no_connection ↦ none
  | failed ↦ none
]

-- No descriptor of the kernel's is dropped between the two calls.
try_accept-kernel_fd :
    (use4 : Bool) (net : Bool → AcceptResult) → (try_accept use4 net).0 ≡ kernel_fd use4 net
unfolding try_accept
try_accept-kernel_fd false net = ground arith
try_accept-kernel_fd true net = ground arith

-- What the kernel hands over, if the mutex is taken.
abbrev pub handed : LockStatus → (Bool → AcceptResult) → Worker → Option ℕ
handed acquired net w = kernel_fd w.use_accept4 net
handed owner_dead net w = none
handed not_recoverable net w = none
handed busy net w = none
handed other_status net w = none

-- What may become of it.
abbrev pub Outcome : ℕ → Option ℕ → Server → Server → Type 0
Outcome now none s s' = s' ≡ s
Outcome now (some fd) s s' = Admitted now fd s s' ⊎ Refused fd s s'

admit-Outcome :
    (now : ℕ) (nonblocking added : Bool) (fd : ℕ) (w : Worker)
    → IsConsistent w.server.pool
    → let s' = (admit now nonblocking added fd w).server in
      (Admitted now fd w.server s' ⊎ Refused fd w.server s') × IsConsistent s'.pool
unfolding admit
admit-Outcome now nonblocking added fd w books =
    let s = w.server in
    elim (Bool-cases (at_least32 s.pool.online_n s.cfg.worker_connections)) [
      | inl full ↦ rw full (inr (refuse-Refused fd s), books)
      | inr room ↦
          rw room
            (elim (Bool-cases (
              ltb (s.cfg.worker_connections * 5) (length s.pool.connection_list)
              && ltb (length s.pool.free_list) s.cfg.worker_connections)) [
                | inl crowded ↦ rw crowded (inr (refuse-Refused fd s), books)
                | inr space ↦ rw space (take_in-Outcome now nonblocking added fd w books)
              ])
    ]

accept_one-Outcome :
    (now : ℕ) (net : Bool → AcceptResult) (nonblocking added : Bool) (w : Worker)
    → IsConsistent w.server.pool
    → let s' = (accept_one now net nonblocking added w).server in
      Outcome now (try_accept w.use_accept4 net).0 w.server s' × IsConsistent s'.pool
unfolding accept_one
accept_one-Outcome now net nonblocking added w books =
    elim (Option-cases (try_accept w.use_accept4 net).0) [
      | inl nothing ↦ rw (nothing, accept_one) (refl, books)
      | inr (fd, got) ↦
          rw (got, accept_one)
            (admit-Outcome now nonblocking added fd
              (record w { use_accept4 = (try_accept w.use_accept4 net).1 }) books)
    ]

-- A descriptor that the kernel hands over is never lost, whatever the results of the system calls:
-- either a connection that was not in use has it, in the state of a new client, with its timer set
-- and one more user counted, or it is closed again and the same connections are in use as before.
-- With no descriptor nothing changes. On every path the connections in use keep their contents, and
-- the pool's books stay right.
pub event_accept-Outcome :
    (now : ℕ) (status : LockStatus) (net : Bool → AcceptResult) (nonblocking added : Bool)
    (w : Worker)
    → IsConsistent w.server.pool
    → let s' = (event_accept now status net nonblocking added w).server in
      Outcome now (handed status net w) w.server s' × IsConsistent s'.pool
unfolding event_accept
event_accept-Outcome now acquired net nonblocking added w books =
    let w' : Worker = record w { holds = true } in
    let r = accept_one-Outcome now net nonblocking added w' books in
    let s' = (accept_one now net nonblocking added w').server in
    (subst (λ o. Outcome now o w.server s') (try_accept-kernel_fd w.use_accept4 net) r.0, r.1)
event_accept-Outcome now owner_dead net nonblocking added w books = (refl, books)
event_accept-Outcome now not_recoverable net nonblocking added w books = (refl, books)
event_accept-Outcome now busy net nonblocking added w books = (refl, books)
event_accept-Outcome now other_status net nonblocking added w books = (refl, books)

-- Whatever happens, the process does not keep the mutex that the processes share.
pub event_accept-unlocks :
    (now : ℕ) (status : LockStatus) (net : Bool → AcceptResult) (nonblocking added : Bool)
    (w : Worker)
    → w.holds ≡ false
    → (event_accept now status net nonblocking added w).holds ≡ false
unfolding event_accept accept_one admit take_in
event_accept-unlocks now acquired net nonblocking added w free = ground arith
event_accept-unlocks now owner_dead net nonblocking added w free = refl
event_accept-unlocks now not_recoverable net nonblocking added w free = free
event_accept-unlocks now busy net nonblocking added w free = free
event_accept-unlocks now other_status net nonblocking added w free = free

admit-limit :
    (now : ℕ) (nonblocking added : Bool) (fd : ℕ) (w : Worker)
    → IsConsistent w.server.pool
    → w.server.cfg.worker_connections < 2 ^ 31
    → w.server.pool.online_n ≤ w.server.cfg.worker_connections
    → (admit now nonblocking added fd w).server.pool.online_n ≤ w.server.cfg.worker_connections
unfolding admit
admit-limit now nonblocking added fd w books small le =
    let s = w.server in
    elim (Bool-cases (at_least32 s.pool.online_n s.cfg.worker_connections)) [
      | inl full ↦ rw full le
      | inr room ↦
          rw room
            (elim (Bool-cases (
              ltb (s.cfg.worker_connections * 5) (length s.pool.connection_list)
              && ltb (length s.pool.free_list) s.cfg.worker_connections)) [
                | inl crowded ↦ rw crowded le
                | inr space ↦ rw space (elim (take_in-Outcome now nonblocking added fd w books).0 [
                  | inl a ↦ omega (arith, a.counted, below s.pool.online_n _ room small le)
                  | inr r ↦ omega (arith, r.online)
                ])
              ])
    ]
  where
    below : (x k : ℕ) → at_least32 x k ≡ false → k < 2 ^ 31 → x ≤ k → x < k
    below x k e small le = ground arith

-- No more users are online than worker_connections, if that was so.
pub event_accept-limit :
    (now : ℕ) (status : LockStatus) (net : Bool → AcceptResult) (nonblocking added : Bool)
    (w : Worker)
    → IsConsistent w.server.pool
    → w.server.cfg.worker_connections < 2 ^ 31
    → w.server.pool.online_n ≤ w.server.cfg.worker_connections
    → (event_accept now status net nonblocking added w).server.pool.online_n
      ≤ w.server.cfg.worker_connections
unfolding event_accept accept_one
event_accept-limit now acquired net nonblocking added w books small le =
    elim (Option-cases (try_accept w.use_accept4 net).0) [
      | inl nothing ↦ rw (nothing, accept_one) le
      | inr (fd, got) ↦
          rw (got, accept_one)
            (admit-limit now nonblocking added fd
              (record w { use_accept4 = (try_accept w.use_accept4 net).1; holds = true }) books
              small le)
    ]
event_accept-limit now owner_dead net nonblocking added w books small le = le
event_accept-limit now not_recoverable net nonblocking added w books small le = le
event_accept-limit now busy net nonblocking added w books small le = le
event_accept-limit now other_status net nonblocking added w books small le = le
