-- ===== src/ThreadPool/Moves.antt =====
-- A step of one worker keeps what is right for all.
use net_server.Base.{
  ℕ, suc, ◌+◌, ◌%◌, ◌^◌, ◌≤◌, ◌<◌, ◌≡◌, refl, sym, ap, subst, ◌∙◌, ◌≢◌, ◌⊎◌, inl, inr, Bool, true,
  false, ◌&&◌, not, Option, none, some, List, [], ◌∷◌, ◌++◌, append_assoc, arith, length, update,
  Bool-cases, Option-cases,
}
use net_server.Base.Words.{inc32, dec32}
use net_server.Types.{Msg}
use net_server.ThreadPool.{
  Pc, locking, testing, entering_wait, waiting, relocking, leaving, took, working, freed, finished,
  crashed, ThreadPool, at_pc, lock, is_empty, step_from, test, leave, worker_step,
}
use net_server.ThreadPool.Workers.{
  IfSome, WorkerOk, counts, working_number, IsThreadPool, WorkerOk-others, working_number-update,
  workers-update,
}

-- The others, when worker `i` has the mutex, or when nobody has.
others_of :
    (i : ℕ) (o o' : Option ℕ) (d d' : Bool) (ms ms' : List Msg) (pc : ℕ → Pc)
    → o ≡ some i
    → ((j : ℕ) → WorkerOk j o d ms (pc j))
    → (j : ℕ) → j ≢ i
    → WorkerOk j o' d' ms' (pc j)
others_of i o o' d d' ms ms' pc has ok j ne =
    WorkerOk-others j o o' d d' ms ms' (pc j) (λ e. ne (ground (arith, e, has))) (ok j)

pub others_free :
    (i : ℕ) (o o' : Option ℕ) (d d' : Bool) (ms ms' : List Msg) (pc : ℕ → Pc)
    → o ≡ none
    → ((j : ℕ) → WorkerOk j o d ms (pc j))
    → (j : ℕ) → WorkerOk j o' d' ms' (pc j)
others_free i o o' d d' ms ms' pc has ok j =
    WorkerOk-others j o o' d d' ms ms' (pc j) (λ e. ground (arith, e, has)) (ok j)

same_running :
    (n i : ℕ) (s : ThreadPool) (p : Pc)
    → i < n
    → IsThreadPool n s
    → counts (s.pc i) ≡ counts p
    → s.running_thread_num ≡ working_number n (update s.pc i p) % 2 ^ 32
same_running n i s p lt ok e = omega (arith, ok.running, working_number-update n i s.pc p lt, e)

lock-IsThreadPool :
    (n i : ℕ) (s : ThreadPool)
    → i < n
    → IsThreadPool n s
    → counts (s.pc i) ≡ 0
    → IfSome (IsThreadPool n) (lock i s)
lock-IsThreadPool n i s lt ok idle = elim (Option-cases s.owner) [
  | inl unlocked ↦ rw unlocked (record {
    workers =
        workers-update i s (some i) s.shutdown s.recvs.msgs testing
          (λ j ne.
            others_free i s.owner (some i) s.shutdown s.shutdown s.recvs.msgs s.recvs.msgs s.pc
              unlocked ok.workers j)
          refl;
    order = ok.order;
    count = ok.count;
    running = same_running n i s testing lt ok idle;
  })
  | inr (j, locked) ↦ rw locked tt
]

test-IsThreadPool :
    (n i : ℕ) (s : ThreadPool)
    → i < n
    → IsThreadPool n s
    → s.pc i ≡ testing
    → IsThreadPool n (test i s)
test-IsThreadPool n i s lt ok at =
    let has = subst (WorkerOk i s.owner s.shutdown s.recvs.msgs) at (ok.workers i) in
    let others =
      others_of i s.owner s.owner s.shutdown s.shutdown s.recvs.msgs s.recvs.msgs s.pc has
        ok.workers in
    elim (Bool-cases (is_empty s.recvs.msgs && not s.shutdown)) [
      | inl nothing ↦ rw nothing (record {
        workers = workers-update i s s.owner s.shutdown s.recvs.msgs entering_wait others has;
        order = ok.order;
        count = ok.count;
        running = same_running n i s entering_wait lt ok (ap counts at);
      })
      | inr something ↦ rw something (record {
        workers =
            workers-update i s s.owner s.shutdown s.recvs.msgs leaving others
              (has, reason s.shutdown s.recvs.msgs something);
        order = ok.order;
        count = ok.count;
        running = same_running n i s leaving lt ok (ap counts at);
      })
    ]
  where
    reason :
        (d : Bool) (ms : List Msg) → (is_empty ms && not d) ≡ false → (d ≡ true) ⊎ (1 ≤ length ms)
    reason true ms e = inl refl
    reason false [] e = ground (arith, e)
    reason false (m ∷ ms) e = inr (omega arith)

wait-IsThreadPool :
    (n i : ℕ) (s : ThreadPool)
    → i < n
    → IsThreadPool n s
    → s.pc i ≡ entering_wait
    → IsThreadPool n (at_pc i waiting (record s { owner = none }))
wait-IsThreadPool n i s lt ok at =
    let has = subst (WorkerOk i s.owner s.shutdown s.recvs.msgs) at (ok.workers i) in
    record {
      workers =
          workers-update i s none s.shutdown s.recvs.msgs waiting
            (others_of i s.owner none s.shutdown s.shutdown s.recvs.msgs s.recvs.msgs s.pc has
              ok.workers)
            tt;
      order = ok.order;
      count = ok.count;
      running = same_running n i s waiting lt ok (ap counts at);
    }

nothing_left : (ms : List Msg) → ms ≡ [] → 1 ≤ length ms → ⊥
nothing_left ms e le = omega (arith, ap length e)

one_less : (c k : ℕ) → c ≡ suc k % 2 ^ 32 → dec32 c ≡ k % 2 ^ 32
one_less c k e = omega (arith, e)

pub one_more : (c k : ℕ) → c ≡ k % 2 ^ 32 → inc32 c ≡ (k + 1) % 2 ^ 32
one_more c k e = omega (arith, e)

take_message :
    (n i : ℕ) (s : ThreadPool) (msgs : List Msg)
    → i < n
    → IsThreadPool n s
    → s.pc i ≡ leaving
    → s.shutdown ≡ false
    → s.recvs.msgs ≡ msgs
    → IsThreadPool n (leave i s)
take_message n i s [] lt ok at runs queue =
    let (has, why) = subst (WorkerOk i s.owner s.shutdown s.recvs.msgs) at (ok.workers i) in
    absurd (elim why [
      | inl stops ↦ ground (arith, stops, runs)
      | inr more ↦ nothing_left s.recvs.msgs queue more
    ])
take_message n i s (m ∷ ms) lt ok at runs queue =
    let (has, why) = subst (WorkerOk i s.owner s.shutdown s.recvs.msgs) at (ok.workers i) in
    let size = ap length queue in
    rw (runs, queue)
      (record {
        workers =
            workers-update i s none s.shutdown ms (took m)
              (others_of i s.owner none s.shutdown s.shutdown s.recvs.msgs ms s.pc has ok.workers)
              tt;
        order = ok.order ∙ ap (s.taken ++◌) queue ∙ sym (append_assoc s.taken (m ∷ []) ms);
        count = one_less s.recvs.count (length ms) (ok.count ∙ ap (λ k. k % 2 ^ 32) size);
        running = same_running n i s (took m) lt ok (ap counts at);
      })

leave-IsThreadPool :
    (n i : ℕ) (s : ThreadPool)
    → i < n
    → IsThreadPool n s
    → s.pc i ≡ leaving
    → IsThreadPool n (leave i s)
leave-IsThreadPool n i s lt ok at = elim (Bool-cases s.shutdown) [
  | inl stops ↦
      let (has, why) = subst (WorkerOk i s.owner s.shutdown s.recvs.msgs) at (ok.workers i) in
      rw stops (record {
        workers =
            workers-update i s none true s.recvs.msgs finished
              (others_of i s.owner none s.shutdown true s.recvs.msgs s.recvs.msgs s.pc has
                ok.workers)
              tt;
        order = ok.order;
        count = ok.count;
        running = same_running n i s finished lt ok (ap counts at);
      })
  | inr runs ↦ take_message n i s s.recvs.msgs lt ok at runs refl
]

-- A step that touches neither the mutex nor the queue.
own-IsThreadPool :
    (n i : ℕ) (s : ThreadPool) (p : Pc) (number : ℕ) (done : List Msg)
    → IsThreadPool n s
    → WorkerOk i s.owner s.shutdown s.recvs.msgs p
    → number ≡ working_number n (update s.pc i p) % 2 ^ 32
    → IsThreadPool n (at_pc i p (record s { running_thread_num = number; handled = done }))
own-IsThreadPool n i s p number done ok worker e = record {
  workers = workers-update i s s.owner s.shutdown s.recvs.msgs p (λ j ne. ok.workers j) worker;
  order = ok.order;
  count = ok.count;
  running = e;
}

step_from-IsThreadPool :
    (n i : ℕ) (s : ThreadPool) (p : Pc)
    → i < n
    → IsThreadPool n s
    → s.pc i ≡ p
    → IfSome (IsThreadPool n) (step_from i s p)
step_from-IsThreadPool n i s locking lt ok at = lock-IsThreadPool n i s lt ok (ap counts at)
step_from-IsThreadPool n i s relocking lt ok at = lock-IsThreadPool n i s lt ok (ap counts at)
step_from-IsThreadPool n i s testing lt ok at = test-IsThreadPool n i s lt ok at
step_from-IsThreadPool n i s entering_wait lt ok at = wait-IsThreadPool n i s lt ok at
step_from-IsThreadPool n i s waiting lt ok at = tt
step_from-IsThreadPool n i s leaving lt ok at = leave-IsThreadPool n i s lt ok at
step_from-IsThreadPool n i s (took m) lt ok at =
    let number = working_number-update n i s.pc (working m) lt in
    let before = ap counts at in
    own-IsThreadPool n i s (working m) (inc32 s.running_thread_num) s.handled ok tt
      (omega (arith, ok.running, number, before))
step_from-IsThreadPool n i s (working m) lt ok at =
    own-IsThreadPool n i s freed s.running_thread_num (s.handled ++ m ∷ []) ok tt
      (same_running n i s freed lt ok (ap counts at))
step_from-IsThreadPool n i s freed lt ok at =
    let number = working_number-update n i s.pc locking lt in
    let before = ap counts at in
    own-IsThreadPool n i s locking (dec32 s.running_thread_num) s.handled ok tt
      (omega (arith, ok.running, number, before))
step_from-IsThreadPool n i s finished lt ok at = tt
step_from-IsThreadPool n i s crashed lt ok at = tt

pub worker_step-IsThreadPool :
    (n i : ℕ) (s s' : ThreadPool)
    → i < n
    → IsThreadPool n s
    → worker_step i s ≡ some s'
    → IsThreadPool n s'
unfolding worker_step
worker_step-IsThreadPool n i s s' lt ok e =
    subst (IfSome (IsThreadPool n)) e (step_from-IsThreadPool n i s (s.pc i) lt ok refl)
