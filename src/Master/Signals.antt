-- ===== src/Master/Signals.antt =====
-- Signals, and the children that have ended.
use net_server.Base.{ℕ, ◌≡◌, refl, ap, Bool, true, false, Option, some, ◌>>=◌, List, [], ◌∷◌, ◌++◌}
use net_server.Master.{
  Wait, ended, none_ended, wait_interrupted, no_children, wait_error, process_get_status,
  signal_handler, ProcessKind, master_process, worker_process, other_process, sigchld,
}

-- The results with which the loop goes on, with the children among them, and those with which it ends.
abbrev pub is_last : Wait → Bool
is_last (ended pid) = false
is_last none_ended = true
is_last wait_interrupted = false
is_last no_children = true
is_last wait_error = true

abbrev pub children : List Wait → List ℕ
children [] = []
children (ended pid ∷ ws) = pid ∷ children ws
children (none_ended ∷ ws) = children ws
children (wait_interrupted ∷ ws) = children ws
children (no_children ∷ ws) = children ws
children (wait_error ∷ ws) = children ws

abbrev pub GoesOn : List Wait → Type 0
GoesOn [] = Unit {0}
GoesOn (w ∷ ws) = (is_last w ≡ false) × GoesOn ws

process_get_status-reaps :
    (ws rest : List Wait) (last : Wait)
    → GoesOn ws
    → is_last last ≡ true
    → process_get_status (ws ++ last ∷ rest) ≡ some (children ws, rest)
unfolding process_get_status
process_get_status-reaps [] rest (ended pid) ok e = cc
process_get_status-reaps [] rest none_ended ok e = refl
process_get_status-reaps [] rest wait_interrupted ok e = cc
process_get_status-reaps [] rest no_children ok e = refl
process_get_status-reaps [] rest wait_error ok e = refl
process_get_status-reaps (ended pid ∷ ws) rest last (_, ok) e =
    ap (λ (o : Option (List ℕ × List Wait)). o >>= λ r. some (pid ∷ r.0, r.1))
      (process_get_status-reaps ws rest last ok e)
process_get_status-reaps (none_ended ∷ ws) rest last (h, ok) e = cc
process_get_status-reaps (wait_interrupted ∷ ws) rest last (_, ok) e =
    process_get_status-reaps ws rest last ok e
process_get_status-reaps (no_children ∷ ws) rest last (h, ok) e = cc
process_get_status-reaps (wait_error ∷ ws) rest last (h, ok) e = cc

-- One SIGCHLD is enough for any number of children: the handler asks until waitpid says that no more
-- have ended, or fails, goes on when it is interrupted, and reaps each child that ended, once and in
-- order. It notes in ngx_reap that it did so in the master process, and leaves ngx_reap alone in the
-- others.
pub signal_handler-reaps :
    (kind : ProcessKind) (ws rest : List Wait) (last : Wait) (reap : Bool)
    → GoesOn ws
    → is_last last ≡ true
    → signal_handler kind sigchld (ws ++ last ∷ rest) reap
      ≡ some (
        elim kind as (λ x. Bool) [
          | master_process ↦ true
          | worker_process ↦ reap
          | other_process ↦ reap
        ],
        children ws,
      )
unfolding signal_handler
signal_handler-reaps master_process ws rest last reap ok e =
    rw (process_get_status-reaps ws rest last ok e) refl
signal_handler-reaps worker_process ws rest last reap ok e =
    rw (process_get_status-reaps ws rest last ok e) refl
signal_handler-reaps other_process ws rest last reap ok e =
    rw (process_get_status-reaps ws rest last ok e) refl
