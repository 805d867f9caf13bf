-- ===== src/Examples/Starting.antt =====
-- Examples for Master.
use net_server.Base.{ℕ, ◌+◌, ◌≡◌, refl, true, false, some, [], ◌∷◌, ◌==◌, if◌then◌else◌}
use net_server.Master.{
  Fork, in_child, in_parent, Pids, MainCalls, start_worker_processes, ended, none_ended,
  wait_interrupted, no_children, signal_handler, master_process, sigchld,
}
use net_server.Master.Workers.{Plays, start_worker_processes-Plays}
use net_server.Master.Signals.{signal_handler-reaps}

abbrev first_pids : Pids
first_pids = record { ngx_pid = 100; ngx_parent = 1 }

-- The parent of a daemon: it leaves with 0.
abbrev parent_calls : MainCalls
parent_calls = record {
  loaded = true;
  log_opened = 3;
  signals_set = true;
  initialized = true;
  daemon = some (record {
    forked = in_parent 101;
    new_session = true;
    null_fd = some 4;
    input_set = true;
    output_set = true;
    null_closed = true;
  });
}

-- The second fork() returns in the child.
abbrev forks : ℕ → Fork
forks i = if i == 1 then in_child 103 else in_parent (102 + i)

start_worker_processes-Plays_example :
    Plays forks 3 0 first_pids (start_worker_processes forks 3 0 first_pids)
start_worker_processes-Plays_example = start_worker_processes-Plays forks 3 0 first_pids

-- Two children end, and waitpid is interrupted between them.
signal_handler-reaps_example :
    signal_handler master_process sigchld
      (ended 102 ∷ wait_interrupted ∷ ended 104 ∷ none_ended ∷ no_children ∷ [])
      false
    ≡ some (true, 102 ∷ 104 ∷ [])
signal_handler-reaps_example =
    signal_handler-reaps master_process (ended 102 ∷ wait_interrupted ∷ ended 104 ∷ [])
      (no_children ∷ []) none_ended false (refl, (refl, (refl, tt))) refl
