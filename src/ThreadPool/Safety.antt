-- ===== src/ThreadPool/Safety.antt =====
-- What holds of the thread pool at every moment.
use net_server.Base.{
  ℕ, ◌%◌, ◌^◌, ◌≡◌, refl, sym, ap, ◌∙◌, inl, inr, none, [], ◌∷◌, ◌++◌, append_assoc, length,
  length-append, Bool-cases,
}
use net_server.Base.Words.{inc32}
use net_server.Types.{Msg}
use net_server.ThreadPool.{
  ThreadPool, wake, wake_up, in_msg_recv_queue_and_signal, stop_all, init, Step, work, wake_one,
  receive, stop, Reach, start, later,
}
use net_server.ThreadPool.Workers.{
  IsThreadPool, WorkerOk-wake, WorkerOk-stop, working_number-wake, working_number-wake_one,
  working_number-locking, workers-update,
}
use net_server.ThreadPool.Moves.{others_free, one_more, worker_step-IsThreadPool}

-- Waking a worker up changes no count, whether it is one of the `n` or not.
wake_up-IsThreadPool : (n k : ℕ) (s : ThreadPool) → IsThreadPool n s → IsThreadPool n (wake_up k s)
unfolding wake_up
wake_up-IsThreadPool n k s ok = record {
  workers =
      workers-update k s s.owner s.shutdown s.recvs.msgs (wake (s.pc k)) (λ j ne. ok.workers j)
        (WorkerOk-wake k s.owner s.shutdown s.recvs.msgs (s.pc k) (ok.workers k));
  order = ok.order;
  count = ok.count;
  running = ok.running ∙ ap (λ j. j % 2 ^ 32) (sym (working_number-wake_one n k s.pc));
}

receive-IsThreadPool :
    (n : ℕ) (m : Msg) (k : ℕ) (s : ThreadPool)
    → s.owner ≡ none
    → IsThreadPool n s
    → IsThreadPool n (in_msg_recv_queue_and_signal m k s)
unfolding in_msg_recv_queue_and_signal
receive-IsThreadPool n m k s unlocked ok =
    wake_up-IsThreadPool n k
      (record s {
        recvs = record { msgs = s.recvs.msgs ++ m ∷ []; count = inc32 s.recvs.count };
        received = s.received ++ m ∷ [];
      })
      (record {
        workers =
            others_free k s.owner s.owner s.shutdown s.shutdown s.recvs.msgs
              (s.recvs.msgs ++ m ∷ []) s.pc unlocked ok.workers;
        order = ap (λ ms. ms ++ m ∷ []) ok.order ∙ append_assoc s.taken s.recvs.msgs (m ∷ []);
        count =
            one_more s.recvs.count (length s.recvs.msgs) ok.count
            ∙ ap (λ k. k % 2 ^ 32) (sym (length-append s.recvs.msgs (m ∷ [])));
        running = ok.running;
      })

stop_all-IsThreadPool : (n : ℕ) (s : ThreadPool) → IsThreadPool n s → IsThreadPool n (stop_all s)
unfolding stop_all
stop_all-IsThreadPool n s ok = elim (Bool-cases s.shutdown) [
  | inl again ↦ simp (again) ok
  | inr first ↦ rw first (record {
    workers = λ j. WorkerOk-stop j s.owner s.shutdown s.recvs.msgs (s.pc j) (ok.workers j);
    order = ok.order;
    count = ok.count;
    running = ok.running ∙ ap (λ k. k % 2 ^ 32) (sym (working_number-wake n s.pc));
  })
]

Step-IsThreadPool : (n : ℕ) (s s' : ThreadPool) → Step n s s' → IsThreadPool n s → IsThreadPool n s'
Step-IsThreadPool n s s' (work i lt e) ok = worker_step-IsThreadPool n i s s' lt ok e
Step-IsThreadPool n s s' (wake_one k) ok = wake_up-IsThreadPool n k s ok
Step-IsThreadPool n s s' (receive m k unlocked) ok = receive-IsThreadPool n m k s unlocked ok
Step-IsThreadPool n s s' stop ok = stop_all-IsThreadPool n s ok

init-IsThreadPool : (n : ℕ) → IsThreadPool n init
init-IsThreadPool n = record {
  workers = λ i. tt;
  order = refl;
  count = refl;
  running = ap (λ k. k % 2 ^ 32) (sym (working_number-locking n));
}

-- However the workers of the pool, the thread that hands messages to it and StopAll are interleaved:
-- only a worker with the mutex tests the queue, none takes a message from an empty queue, the messages
-- are taken in the order in which they came and none is lost or taken twice, and both counters agree
-- with what they count.
pub Reach-IsThreadPool : (n : ℕ) (s : ThreadPool) → Reach n s → IsThreadPool n s
Reach-IsThreadPool n s start = init-IsThreadPool n
Reach-IsThreadPool n s (later r step) = Step-IsThreadPool n _ s step (Reach-IsThreadPool n _ r)
