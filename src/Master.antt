-- ===== src/Master.antt =====
-- The master process: main of app/nginx.cxx, ngx_daemon of proc/ngx_daemon.cxx, the start of the worker
-- processes in proc/ngx_process_cycle.cxx, and the signals of signal/ngx_signal.cxx. The results of the
-- system calls are arguments, and so are those of the functions of other files.
pub mod Detaching
pub mod Leaving
pub mod Workers
pub mod Signals
use net_server.Base.{
  ℕ, zero, suc, ◌+◌, Bool, true, false, Option, none, some, ◌>>=◌, List, [], ◌∷◌, ◌==◌, ltb, ◌++◌,
  if◌then◌else◌,
}

-- What fork() returns: -1, 0 with the new process id, or the child's.
pub data Fork : Type 0 where
  fork_failed : Fork
  in_child in_parent : ℕ → Fork

-- ngx_pid and ngx_parent.
pub record Pids : Type 0 where
  pub ngx_pid : ℕ
  pub ngx_parent : ℕ

-- The system calls of ngx_daemon.
pub record DaemonCalls : Type 0 where
  pub forked : Fork
  pub new_session : Bool
  pub null_fd : Option ℕ
  pub input_set : Bool
  pub output_set : Bool
  pub null_closed : Bool

-- The results -1, 1 and 0 of ngx_daemon.
pub data DaemonResult : Type 0 where
  daemon_failed parent_leaves daemonized : DaemonResult

-- ngx_daemon in the child.
abbrev pub detach : DaemonCalls → DaemonResult
detach c =
    if c.new_session
    then elim c.null_fd [
      | none ↦ daemon_failed
      | some fd ↦
          if c.input_set
          then (if c.output_set
              then (if ltb 2 fd
                  then (if c.null_closed then daemonized else daemon_failed)
                  else daemonized)
              else daemon_failed)
          else daemon_failed
    ]
    else daemon_failed

unfoldable pub ngx_daemon : DaemonCalls → Pids → DaemonResult × Pids
ngx_daemon c p = elim c.forked [
  | fork_failed ↦ (daemon_failed, p)
  | in_parent pid ↦ (parent_leaves, p)
  | in_child pid ↦ (detach c, record { ngx_pid = pid; ngx_parent = p.ngx_pid })
]

-- gp_envmem is there, ngx_log.fd, and the descriptors that were closed.
pub record Resources : Type 0 where
  pub env_mem : Bool
  pub log_fd : Option ℕ
  pub closed : List ℕ

abbrev close_log : Resources → Resources
close_log r = elim r.log_fd [
  | none ↦ r
  | some fd ↦ if fd == 2 then r else record r { log_fd = none; closed = fd ∷ r.closed }
]

-- freeresource
unfoldable pub freeresource : Resources → Resources
freeresource r = close_log (record r { env_mem = false })

-- What main calls: Load, ngx_log_init, ngx_init_signals and Initialize; the daemon's calls if "Daemon"
-- is set to 1.
pub record MainCalls : Type 0 where
  pub loaded : Bool
  pub log_opened : ℕ
  pub signals_set : Bool
  pub initialized : Bool
  pub daemon : Option DaemonCalls

-- The exit code, or none if main goes on to ngx_master_process_cycle, which does not return.
abbrev leave : ℕ → Resources → Option ℕ × Resources
leave exitcode r = (some exitcode, freeresource r)

abbrev as_daemon : DaemonResult → Resources → Option ℕ × Resources
as_daemon daemon_failed r = leave 1 r
as_daemon parent_leaves r = leave 0 r
as_daemon daemonized r = (none, r)

unfoldable pub main : MainCalls → Pids → Option ℕ × Resources
unfolding freeresource ngx_daemon
main c p =
    let r₀ : Resources = record { env_mem = false; log_fd = some c.log_opened; closed = [] } in
    let r₁ : Resources = record r₀ { env_mem = true } in
    if c.loaded
    then (if c.signals_set
        then (if c.initialized
            then elim c.daemon [ none ↦ (none, r₁) | some d ↦ as_daemon (ngx_daemon d p).0 r₁ ]
            else leave 1 r₀)
        else leave 1 r₀)
    else leave 2 r₀

-- What a process is after ngx_start_worker_processes: the master, with what ngx_spawn_process has
-- returned (none for -1), or the worker with a number, which stays in ngx_worker_process_cycle.
pub data Role : Type 0 where
  master : List (Option ℕ) → Role
  worker : ℕ → Pids → Role

abbrev and_before : Option ℕ → Role → Role
and_before pid (master pids) = master (pid ∷ pids)
and_before pid (worker i p) = worker i p

-- ngx_start_worker_processes from the number `i` on, with ngx_spawn_process: `n` turns are left.
unfoldable pub start_worker_processes : (ℕ → Fork) → ℕ → ℕ → Pids → Role
start_worker_processes fork zero i p = master []
start_worker_processes fork (suc n) i p =
    let rest = start_worker_processes fork n (i + 1) p in
    elim (fork i) [
      | fork_failed ↦ and_before none rest
      | in_parent pid ↦ and_before (some pid) rest
      | in_child pid ↦ worker i (record { ngx_pid = pid; ngx_parent = p.ngx_pid })
    ]

-- The table of the signals, and whether there is a handler.
pub data Signal : Type 0 where
  sighup sigint sigterm sigchld sigquit sigio sigsys sigusr1 : Signal

abbrev pub signals : List (Signal × Bool)
signals =
    (sighup, true)
    ∷ (sigint, true)
    ∷ (sigterm, true)
    ∷ (sigchld, true)
    ∷ (sigquit, true)
    ∷ (sigio, true)
    ∷ (sigsys, false)
    ∷ (sigusr1, true)
    ∷ []

-- ngx_init_signals: whether it succeeds, and what sigaction has set (true for the handler, false for
-- SIG_IGN).
unfoldable pub init_loop : (Signal → Bool) → List (Signal × Bool) → Bool × List (Signal × Bool)
init_loop sigaction [] = (true, [])
init_loop sigaction ((sig, handler) ∷ rest) =
    let more = init_loop sigaction rest in
    if sigaction sig then (more.0, (sig, handler) ∷ more.1) else (false, [])

abbrev pub ngx_init_signals : (Signal → Bool) → Bool × List (Signal × Bool)
ngx_init_signals sigaction = init_loop sigaction signals

-- What waitpid returns: a child that has ended, 0, or -1 with an errno.
pub data Wait : Type 0 where
  ended : ℕ → Wait
  none_ended wait_interrupted no_children wait_error : Wait

-- ngx_process_get_status, with the results of the successive calls of waitpid: the children that were
-- reaped, and the results that were not asked for. `none` means that the loop goes on at their end.
unfoldable pub process_get_status : List Wait → Option (List ℕ × List Wait)
process_get_status [] = none
process_get_status (none_ended ∷ ws) = some ([], ws)
process_get_status (no_children ∷ ws) = some ([], ws)
process_get_status (wait_error ∷ ws) = some ([], ws)
process_get_status (wait_interrupted ∷ ws) = process_get_status ws
process_get_status (ended pid ∷ ws) = process_get_status ws >>= λ r. some (pid ∷ r.0, r.1)

-- NGX_PROCESS_MASTER and NGX_PROCESS_WORKER.
pub data ProcessKind : Type 0 where
  master_process worker_process other_process : ProcessKind

-- ngx_signal_handler: the new value of ngx_reap, and the children that were reaped.
unfoldable pub signal_handler : ProcessKind → Signal → List Wait → Bool → Option (Bool × List ℕ)
unfolding process_get_status
signal_handler master_process sigchld ws reap = process_get_status ws >>= λ r. some (true, r.0)
signal_handler worker_process sigchld ws reap = process_get_status ws >>= λ r. some (reap, r.0)
signal_handler other_process sigchld ws reap = process_get_status ws >>= λ r. some (reap, r.0)
signal_handler kind sig ws reap = some (reap, [])
