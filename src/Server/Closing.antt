-- ===== src/Server/Closing.antt =====
-- zdClosesocketProc: what a closed connection leaves behind.
use net_server.Base.{
  ℕ, ◌<◌, ◌≡◌, ◌≢◌, sym, ap, subst, ◌∙◌, ◌⊎◌, inl, inr, true, Option, none, some, List, [], ◌∷◌,
  arith, elem, All, ◌==◌, Bool-cases, Option-cases,
}
use net_server.Types.{Config}
use net_server.Base.Words.{is_pos32}
use net_server.Pool.{Pool, in_recy_connect_queue}
use net_server.Pool.Count.{occurs}
use net_server.Pool.Invariant.{
  IsConsistent, InUse, in_recy-IsConsistent, elem-in_recy, in_recy_seen,
}
use net_server.Pool.Handing.{elem-in_recy_old, IsConsistent-conns}
use net_server.Timer.{TimerQueue, Entry}
use net_server.Timer.Order.{IsTimerQueue, without, delete-IsTimerQueue}
use net_server.Server.{
  Server, conn_at, zd_close_socket_proc, close_fd, drop_throw_send, forget_timers,
}

-- Nothing is left of a connection but its place among those that wait to be recycled.
pub record IsClosed (a : ℕ) (s : Server) : Type 0 where
  pub no_fd : (conn_at s a).fd ≡ none
  pub waits : elem a s.pool.recy_list ≡ true
  pub no_timer : s.cfg.kick_time_enable ≡ 1 → All (λ (e : Entry). e.1.conn ≢ a) s.timers.queue_map

-- The descriptors closed so far, with that of the connection if it has one.
abbrev pub closing : Option ℕ → List ℕ → List ℕ
closing none fds = fds
closing (some fd) fds = fd ∷ fds

without-All : (a : ℕ) (xs : List Entry) → All (λ (e : Entry). e.1.conn ≢ a) (without a xs)
without-All a [] = tt
without-All a ((t, h) ∷ xs) = ground (arith, without-All a xs)

forget_timers-rest :
    (a : ℕ) (s : Server) → forget_timers a s ≡ record s { timers = (forget_timers a s).timers }
unfolding forget_timers
forget_timers-rest a s = ground arith

forget_timers-without :
    (a : ℕ) (s : Server)
    → IsTimerQueue s.timers
    → IsTimerQueue (forget_timers a s).timers
      × (s.cfg.kick_time_enable ≡ 1
          → (forget_timers a s).timers.queue_map ≡ without a s.timers.queue_map)
unfolding forget_timers
forget_timers-without a s ok =
    let d = delete-IsTimerQueue a s.timers ok in
    elim (Bool-cases (s.cfg.kick_time_enable == 1)) [
      | inl on ↦ rw on (d.0, λ _. d.1)
      | inr off ↦ rw off (ok, λ e. ground arith)
    ]

-- What close_fd and drop_throw_send do.
record Shut (a : ℕ) (s s' : Server) : Type 0 where
  fd : (conn_at s' a).fd ≡ none
  others : (b : ℕ) → b ≢ a → conn_at s' b ≡ conn_at s b
  closed : s'.closed ≡ closing (conn_at s a).fd s.closed
  pool : s'.pool ≡ record s.pool { conns = s'.pool.conns }
  timers : s'.timers ≡ s.timers
  cfg : s'.cfg ≡ s.cfg

close_fd-Shut : (a : ℕ) (s : Server) → Shut a s (close_fd a s)
unfolding close_fd
close_fd-Shut a s = elim (Option-cases (conn_at s a).fd) [
  | inl gone ↦ ground arith
  | inr (fd, is_open) ↦ record {
    fd = ground arith;
    others = λ b ne. ground arith;
    closed = ground arith;
    pool = ground arith;
    timers = ground arith;
    cfg = ground arith;
  }
]

drop_throw_send-Shut : (a : ℕ) (s s' : Server) → Shut a s s' → Shut a s (drop_throw_send a s')
unfolding drop_throw_send
drop_throw_send-Shut a s s' h = elim (Bool-cases (is_pos32 (conn_at s' a).throw_send_count)) [
  | inr quiet ↦ rw quiet h
  | inl busy ↦ rw busy (record {
    fd = ground (arith, h.fd);
    others = λ b ne. ground (arith, h.others b);
    closed = h.closed;
    pool = ground (arith, h.pool);
    timers = h.timers;
    cfg = h.cfg;
  })
]

Held : ℕ → Pool → Type 0
Held a p = InUse p a ⊎ (0 < occurs a p.recy_list)

Held-conns : (a : ℕ) (p q : Pool) → q ≡ record p { conns = q.conns } → Held a p → Held a q
unfolding Held
Held-conns a p q e h = subst (Held a) (sym e) h

in_recy-others :
    (a now b : ℕ) (p : Pool) → b ≢ a → (in_recy_connect_queue a now p).conns b ≡ p.conns b
unfolding in_recy_connect_queue
in_recy-others a now b p ne = ground arith

in_recy-fd : (a now : ℕ) (p : Pool) → ((in_recy_connect_queue a now p).conns a).fd ≡ (p.conns a).fd
unfolding in_recy_connect_queue
in_recy-fd a now p = ground arith

pub zd_close-gone :
    (a now : ℕ) (s : Server)
    → let s' = zd_close_socket_proc a now s in
      ((conn_at s' a).fd ≡ none) × (elem a s'.pool.recy_list ≡ true)
unfolding zd_close_socket_proc
zd_close-gone a now s =
    let t = forget_timers a s in
    let u = drop_throw_send a (close_fd a t) in
    let h = drop_throw_send-Shut a t (close_fd a t) (close_fd-Shut a t) in
    (in_recy-fd a now u.pool ∙ h.fd, elem-in_recy a now u.pool)

-- A connection that is in use, or waits to be recycled already, is closed: its descriptor is passed
-- to close() if it still has one, its timers are gone if timers are on, and it waits to be recycled.
-- The pool's books and the timer queue stay right, and the other connections are as they were.
pub zd_close-IsClosed :
    (a now : ℕ) (s : Server)
    → IsConsistent s.pool
    → IsTimerQueue s.timers
    → InUse s.pool a ⊎ (0 < occurs a s.pool.recy_list)
    → let s' = zd_close_socket_proc a now s in
      IsClosed a s'
      × IsConsistent s'.pool
      × IsTimerQueue s'.timers
      × (s'.closed ≡ closing (conn_at s a).fd s.closed)
      × ((b : ℕ) → b ≢ a → conn_at s' b ≡ conn_at s b)
unfolding zd_close_socket_proc Held
zd_close-IsClosed a now s books timers held =
    let t = forget_timers a s in
    let rest = forget_timers-rest a s in
    let w = forget_timers-without a s timers in
    let u = drop_throw_send a (close_fd a t) in
    let h = drop_throw_send-Shut a t (close_fd a t) (close_fd-Shut a t) in
    let lists : u.pool ≡ record s.pool { conns = u.pool.conns } =
      h.pool ∙ ap (λ (x : Server). record x.pool { conns = u.pool.conns }) rest in
    (
      record {
        no_fd = (zd_close-gone a now s).0;
        waits = (zd_close-gone a now s).1;
        no_timer = λ on.
            let kick : s.cfg.kick_time_enable ≡ 1 =
              sym
                (ap (λ (c : Config). c.kick_time_enable) (h.cfg ∙ ap (λ (x : Server). x.cfg) rest))
              ∙ on in
            let left : u.timers.queue_map ≡ without a s.timers.queue_map =
              ap (λ (q : TimerQueue). q.queue_map) h.timers ∙ w.1 kick in
            subst (All (λ (e : Entry). e.1.conn ≢ a)) (sym left) (without-All a s.timers.queue_map);
      },
      in_recy-IsConsistent a now u.pool (IsConsistent-conns s.pool u.pool lists books)
          (Held-conns a s.pool u.pool lists held),
      subst IsTimerQueue (sym h.timers) w.0,
      h.closed ∙ ap (λ (x : Server). closing (conn_at x a).fd x.closed) rest,
      λ b ne.
          in_recy-others a now b u.pool ne ∙ h.others b ne ∙ ap (λ (x : Server). conn_at x b) rest,
    )

zd_close-done :
    (a now : ℕ) (s : Server)
    → (conn_at s a).fd ≡ none
    → elem a s.pool.recy_list ≡ true
    → let s' = zd_close_socket_proc a now s in
      (s'.closed ≡ s.closed)
      × (s'.pool.recy_list ≡ s.pool.recy_list)
      × (s'.pool.recy_n ≡ s.pool.recy_n)
      × (s'.pool.online_n ≡ s.pool.online_n)
unfolding zd_close_socket_proc
zd_close-done a now s gone waits =
    let t = forget_timers a s in
    let rest = forget_timers-rest a s in
    let u = drop_throw_send a (close_fd a t) in
    let h = drop_throw_send-Shut a t (close_fd a t) (close_fd-Shut a t) in
    let lists : u.pool ≡ record s.pool { conns = u.pool.conns } =
      h.pool ∙ ap (λ (x : Server). record x.pool { conns = u.pool.conns }) rest in
    let seen : in_recy_connect_queue a now u.pool ≡ u.pool =
      in_recy_seen a now u.pool (ap (λ (q : Pool). elem a q.recy_list) lists ∙ waits) in
    (
      h.closed
          ∙ ap (λ (x : Server). closing (conn_at x a).fd x.closed) rest
          ∙ ap (λ o. closing o s.closed) gone,
      ap (λ (q : Pool). q.recy_list) (seen ∙ lists),
      ap (λ (q : Pool). q.recy_n) (seen ∙ lists),
      ap (λ (q : Pool). q.online_n) (seen ∙ lists),
    )

-- zdClosesocketProc may run twice for a connection, as when its two handlers both meet an error: the
-- second call closes no descriptor, does not enter the connection into the list again, and leaves
-- the counters of waiting connections and of users online alone.
pub zd_close-zd_close :
    (a now later : ℕ) (s : Server)
    → let once = zd_close_socket_proc a now s in
      let twice = zd_close_socket_proc a later once in
      (twice.closed ≡ once.closed)
      × (twice.pool.recy_list ≡ once.pool.recy_list)
      × (twice.pool.recy_n ≡ once.pool.recy_n)
      × (twice.pool.online_n ≡ once.pool.online_n)
zd_close-zd_close a now later s =
    let gone = zd_close-gone a now s in
    zd_close-done a later (zd_close_socket_proc a now s) gone.0 gone.1

-- What a call does not touch.
pub zd_close-others :
    (a now : ℕ) (s : Server) (b : ℕ)
    → b ≢ a
    → (conn_at (zd_close_socket_proc a now s) b ≡ conn_at s b)
unfolding zd_close_socket_proc
zd_close-others a now s b ne =
    let t = forget_timers a s in
    let u = drop_throw_send a (close_fd a t) in
    let h = drop_throw_send-Shut a t (close_fd a t) (close_fd-Shut a t) in
    in_recy-others a now b u.pool ne
    ∙ h.others b ne
    ∙ ap (λ (x : Server). conn_at x b) (forget_timers-rest a s)

pub zd_close-cfg : (a now : ℕ) (s : Server) → (zd_close_socket_proc a now s).cfg ≡ s.cfg
unfolding zd_close_socket_proc
zd_close-cfg a now s =
    let t = forget_timers a s in
    (drop_throw_send-Shut a t (close_fd a t) (close_fd-Shut a t)).cfg
    ∙ ap (λ (x : Server). x.cfg) (forget_timers-rest a s)

pub zd_close-waits :
    (a now : ℕ) (s : Server) (b : ℕ)
    → elem b s.pool.recy_list ≡ true
    → elem b (zd_close_socket_proc a now s).pool.recy_list ≡ true
unfolding zd_close_socket_proc
zd_close-waits a now s b e =
    let t = forget_timers a s in
    let u = drop_throw_send a (close_fd a t) in
    let h = drop_throw_send-Shut a t (close_fd a t) (close_fd-Shut a t) in
    let lists : u.pool.recy_list ≡ s.pool.recy_list =
      ap (λ (q : Pool). q.recy_list) h.pool
      ∙ ap (λ (x : Server). x.pool.recy_list) (forget_timers-rest a s) in
    elem-in_recy_old a now b u.pool (ap (elem b) lists ∙ e)
