-- ===== src/Examples/Threading.antt =====
-- Examples for ThreadPool.
use net_server.Base.{ℕ, ◌≡◌, refl, none, some, true, [], ◌∷◌, arith}
use net_server.Types.{Msg}
use net_server.ThreadPool.{
  entering_wait, waiting, finished, ThreadPool, worker_step, wake_up, in_msg_recv_queue_and_signal,
  stop_all, init, work, receive, Reach, start, later,
}
use net_server.ThreadPool.Workers.{IsThreadPool}
use net_server.ThreadPool.Safety.{Reach-IsThreadPool}
use net_server.ThreadPool.Stopping.{Run, run_none, run_step, asleep, stop_all-misses}

abbrev ping : Msg
ping = record {
  msg_header = record { conn = 3; curr_sequence = 1 };
  pkg = 0 ∷ 8 ∷ 0 ∷ 0 ∷ 0 ∷ 0 ∷ 0 ∷ 0 ∷ [];
}

-- A step of a worker, where it has one.
abbrev advance : ℕ → ThreadPool → ThreadPool
unfolding worker_step
advance i s = elim (worker_step i s) [ none ↦ s | some s' ↦ s' ]

-- Worker 0 finds the queue empty.
abbrev found_empty : ThreadPool
found_empty = advance 0 (advance 0 init)

Reach-found_empty : Reach 2 found_empty
unfolding worker_step
Reach-found_empty = later (later start (work 0 (omega arith) refl)) (work 0 (omega arith) refl)

found_empty-entering_wait : found_empty.pc 0 ≡ entering_wait
unfolding worker_step
found_empty-entering_wait = refl

-- It waits, a message comes and wakes it up, and it takes the message.
abbrev one_taken : ThreadPool
unfolding in_msg_recv_queue_and_signal wake_up
one_taken =
    advance 0 (advance 0 (advance 0 (in_msg_recv_queue_and_signal ping 0 (advance 0 found_empty))))

Reach-one_taken : Reach 2 one_taken
unfolding worker_step in_msg_recv_queue_and_signal wake_up
Reach-one_taken =
    later
      (later
        (later (later (later Reach-found_empty (work 0 (omega arith) refl)) (receive ping 0 refl))
          (work 0 (omega arith) refl))
        (work 0 (omega arith) refl))
      (work 0 (omega arith) refl)

one_taken-test : one_taken.taken ≡ ping ∷ []
unfolding worker_step in_msg_recv_queue_and_signal wake_up
one_taken-test = refl

Reach-IsThreadPool_example : IsThreadPool 2 one_taken
Reach-IsThreadPool_example = Reach-IsThreadPool 2 one_taken Reach-one_taken

-- Worker 1 ends, worker 0 has missed the broadcast.
abbrev after_stop : ThreadPool
after_stop = advance 1 (advance 1 (advance 1 (asleep 0 (stop_all found_empty))))

Run-after_stop : Run 2 (asleep 0 (stop_all found_empty)) after_stop
unfolding worker_step stop_all
Run-after_stop =
    run_step 1 (run_step 1 (run_step 1 run_none (omega arith) refl) (omega arith) refl)
      (omega arith) refl

after_stop-test : after_stop.pc 1 ≡ finished
unfolding worker_step stop_all
after_stop-test = refl

stop_all-misses_example :
    (worker_step 0 (stop_all found_empty) ≡ some (asleep 0 (stop_all found_empty)))
    × (after_stop.pc 0 ≡ waiting)
    × (after_stop.shutdown ≡ true)
stop_all-misses_example =
    stop_all-misses 2 0 found_empty after_stop found_empty-entering_wait Run-after_stop
