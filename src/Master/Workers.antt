-- ===== src/Master/Workers.antt =====
-- Which process does what after ngx_start_worker_processes.
use net_server.Base.{
  ℕ, zero, suc, ◌+◌, ◌<◌, ◌≡◌, ◌≢◌, refl, sym, ap, subst, ◌∙◌, Option, none, some, List, [], ◌∷◌,
  arith,
}
use net_server.Master.{
  Fork, fork_failed, in_child, in_parent, Pids, Role, master, worker, and_before,
  start_worker_processes,
}

-- What ngx_spawn_process returns in the master.
abbrev pub spawned : Fork → Option ℕ
spawned fork_failed = none
spawned (in_child pid) = some 0
spawned (in_parent pid) = some pid

abbrev pub results : (ℕ → Fork) → ℕ → ℕ → List (Option ℕ)
results fork zero i = []
results fork (suc n) i = spawned (fork i) ∷ results fork n (i + 1)

-- None of `k` calls of fork(), from the number `i` on, has returned in a child.
abbrev pub NoChild : (ℕ → Fork) → ℕ → ℕ → Type 0
NoChild fork i k = (j : ℕ) → j < k → (pid : ℕ) → fork (i + j) ≢ in_child pid

-- The master has a result for each turn, and a worker has the number of the turn in which it was made,
-- which is the first that made a child here.
abbrev pub Plays : (ℕ → Fork) → ℕ → ℕ → Pids → Role → Type 0
Plays fork n i p (master pids) = (pids ≡ results fork n i) × NoChild fork i n
Plays fork n i p (worker number q) =
    (k pid : ℕ) × (number ≡ i + k)
    × (k < n)
    × (fork number ≡ in_child pid)
    × (q ≡ record { ngx_pid = pid; ngx_parent = p.ngx_pid })
    × NoChild fork i k

first_of : (fork : ℕ → Fork) (i : ℕ) → fork (i + 0) ≡ fork i
first_of fork i = ap fork (omega arith)

more-NoChild :
    (fork : ℕ → Fork) (i k : ℕ)
    → ((pid : ℕ) → fork i ≢ in_child pid)
    → NoChild fork (i + 1) k
    → NoChild fork i (suc k)
more-NoChild fork i k here rest zero lt pid e = here pid (sym (first_of fork i) ∙ e)
more-NoChild fork i k here rest (suc j) lt pid e =
    let at : i + 1 + j ≡ i + suc j = omega arith in rest j (omega arith) pid (ap fork at ∙ e)

later-Plays :
    (fork : ℕ → Fork) (n i : ℕ) (p : Pids) (role : Role)
    → ((pid : ℕ) → fork i ≢ in_child pid)
    → Plays fork n (i + 1) p role
    → Plays fork (suc n) i p (and_before (spawned (fork i)) role)
later-Plays fork n i p (master pids) here (e, none_child) =
    (ap (◌∷◌ (spawned (fork i))) e, more-NoChild fork i n here none_child)
later-Plays fork n i p (worker number q) here (k, pid, at, lt, child, own, none_child) = (
  suc k,
  pid,
  omega (arith, at),
  omega (arith, lt),
  child,
  own,
  more-NoChild fork i k here none_child,
)

-- One turn.
abbrev played : ℕ → Pids → Role → Fork → Role
played i p rest fork_failed = and_before none rest
played i p rest (in_parent pid) = and_before (some pid) rest
played i p rest (in_child pid) = worker i (record { ngx_pid = pid; ngx_parent = p.ngx_pid })

turn :
    (fork : ℕ → Fork) (n i : ℕ) (p : Pids) (f : Fork)
    → fork i ≡ f
    → start_worker_processes fork (suc n) i p
      ≡ played i p (start_worker_processes fork n (i + 1) p) f
unfolding start_worker_processes
turn fork n i p fork_failed e = rw (e, start_worker_processes) refl
turn fork n i p (in_parent pid) e = rw (e, start_worker_processes) refl
turn fork n i p (in_child pid) e = rw (e, start_worker_processes) refl

step-Plays :
    (fork : ℕ → Fork) (n i : ℕ) (p : Pids) (f : Fork)
    → fork i ≡ f
    → Plays fork n (i + 1) p (start_worker_processes fork n (i + 1) p)
    → Plays fork (suc n) i p (start_worker_processes fork (suc n) i p)
unfolding start_worker_processes
step-Plays fork n i p fork_failed e rest =
    let role = start_worker_processes fork n (i + 1) p in
    let later = later-Plays fork n i p role (λ pid h. cc) rest in
    subst (Plays fork (suc n) i p)
      (ap (λ f. and_before (spawned f) role) e ∙ sym (turn fork n i p fork_failed e)) later
step-Plays fork n i p (in_parent pid') e rest =
    let role = start_worker_processes fork n (i + 1) p in
    let later = later-Plays fork n i p role (λ pid h. cc) rest in
    subst (Plays fork (suc n) i p)
      (ap (λ f. and_before (spawned f) role) e ∙ sym (turn fork n i p (in_parent pid') e)) later
step-Plays fork n i p (in_child pid) e rest =
    subst (Plays fork (suc n) i p) (sym (turn fork n i p (in_child pid) e))
      (0, pid, omega arith, omega arith, e, refl, λ j lt. absurd (omega (arith, lt)))

-- Of the processes that ngx_start_worker_processes leaves behind, the master has gone through all turns,
-- with one result for each, and a worker is made in its own turn, has its own process id and the
-- master's as its parent's, and makes no further process: the turns before its own made no child in it.
pub start_worker_processes-Plays :
    (fork : ℕ → Fork) (n i : ℕ) (p : Pids) → Plays fork n i p (start_worker_processes fork n i p)
unfolding start_worker_processes
start_worker_processes-Plays fork zero i p = (refl, λ j lt. absurd (omega (arith, lt)))
start_worker_processes-Plays fork (suc n) i p =
    step-Plays fork n i p (fork i) refl (start_worker_processes-Plays fork n (i + 1) p)
