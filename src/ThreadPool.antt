-- ===== src/ThreadPool.antt =====
-- misc/ngx_c_threadpool.cxx: CThreadPool. The workers run interleaved in any order. What a worker does
-- under m_pthreadMutex up to the next call of pthread is one step, but for the tests of m_shutdown,
-- which StopAll writes without the mutex. The errors of the pthread functions are left out: the code
-- only logs them.
pub mod Moves
pub mod Workers
pub mod Safety
pub mod Stopping
use net_server.Base.{
  ℕ, ◌<◌, ◌≡◌, Bool, true, false, ◌&&◌, not, Option, none, some, List, [], ◌∷◌, ◌++◌, length, ◌==◌,
  if◌then◌else◌, update,
}
use net_server.Base.Words.{inc32, dec32}
use net_server.Types.{Msg}
use net_server.Recv.{RecvQueue, in_msg_recv_queue}

-- Where a worker stands in ThreadFunc: before pthread_mutex_lock, at the test of the inner loop, past
-- this test and before pthread_cond_wait, in it, woken up but without the mutex, behind the inner loop,
-- with a message before it counts itself, in threadRecvProcFunc, before it is no longer counted, and at
-- the end. `crashed` is front() of an empty list.
pub data Pc : Type 0 where
  locking testing entering_wait waiting relocking leaving : Pc
  took working : Msg → Pc
  freed finished crashed : Pc

-- `received`, `taken` and `handled` are the messages that came, that a worker took out of the queue, and
-- that threadRecvProcFunc has worked on, the latest last: they only serve to state what happens.
pub record ThreadPool : Type 0 where
  pub recvs : RecvQueue
  pub owner : Option ℕ
  pub shutdown : Bool
  pub running_thread_num : ℕ
  pub ifrunning : ℕ → Bool
  pub pc : ℕ → Pc
  pub received : List Msg
  pub taken : List Msg
  pub handled : List Msg

abbrev pub at_pc : ℕ → Pc → ThreadPool → ThreadPool
at_pc i p s = record s { pc = update s.pc i p }

-- pthread_mutex_lock, which blocks while another thread has the mutex.
abbrev pub lock : ℕ → ThreadPool → Option ThreadPool
lock i s = elim s.owner [
  | none ↦ some (at_pc i testing (record s { owner = some i }))
  | some j ↦ none
]

abbrev pub is_empty : List Msg → Bool
is_empty [] = true
is_empty (m ∷ ms) = false

-- The test of the inner loop.
abbrev pub test : ℕ → ThreadPool → ThreadPool
test i s =
    if is_empty s.recvs.msgs && not s.shutdown
    then at_pc i entering_wait (record s { ifrunning = update s.ifrunning i true })
    else at_pc i leaving s

-- Behind the inner loop: the end, or the first message.
abbrev pub leave : ℕ → ThreadPool → ThreadPool
leave i s = if s.shutdown then at_pc i finished (record s { owner = none }) else elim s.recvs.msgs [
  | [] ↦ at_pc i crashed s
  | m ∷ ms ↦ at_pc i (took m) (record s {
    recvs = record { msgs = ms; count = dec32 s.recvs.count };
    owner = none;
    taken = s.taken ++ m ∷ [];
  })
]

-- A step of worker `i` in ThreadFunc, from where it stands, if it is not blocked.
abbrev pub step_from : ℕ → ThreadPool → Pc → Option ThreadPool
step_from i s locking = lock i s
step_from i s relocking = lock i s
step_from i s testing = some (test i s)
step_from i s entering_wait = some (at_pc i waiting (record s { owner = none }))
step_from i s waiting = none
step_from i s leaving = some (leave i s)
step_from i s (took m) =
    some (at_pc i (working m) (record s { running_thread_num = inc32 s.running_thread_num }))
step_from i s (working m) = some (at_pc i freed (record s { handled = s.handled ++ m ∷ [] }))
step_from i s freed =
    some (at_pc i locking (record s { running_thread_num = dec32 s.running_thread_num }))
step_from i s finished = none
step_from i s crashed = none

unfoldable pub worker_step : ℕ → ThreadPool → Option ThreadPool
worker_step i s = step_from i s (s.pc i)

abbrev pub wake : Pc → Pc
wake waiting = relocking
wake locking = locking
wake testing = testing
wake entering_wait = entering_wait
wake relocking = relocking
wake leaving = leaving
wake (took m) = took m
wake (working m) = working m
wake freed = freed
wake finished = finished
wake crashed = crashed

-- pthread_cond_wait of worker `k` returns, after a signal or with no cause.
unfoldable pub wake_up : ℕ → ThreadPool → ThreadPool
wake_up k s = at_pc k (wake (s.pc k)) s

-- inMsgRecvQueueAndSignal and the signal of Call, which worker `k` gets if it waits. The signal comes
-- after the mutex is given back; that it comes later is a step with a `k` that does not wait, and then
-- `wake_up`.
unfoldable pub in_msg_recv_queue_and_signal : Msg → ℕ → ThreadPool → ThreadPool
in_msg_recv_queue_and_signal m k s =
    wake_up k (record s { recvs = in_msg_recv_queue m s.recvs; received = s.received ++ m ∷ [] })

-- StopAll up to its broadcast; what follows waits for the workers and frees their objects.
unfoldable pub stop_all : ThreadPool → ThreadPool
stop_all s = if s.shutdown then s else record s { shutdown = true; pc = λ j. wake (s.pc j) }

-- The pool as the constructor and Create leave it.
abbrev pub init : ThreadPool
init = record {
  recvs = record { msgs = []; count = 0 };
  owner = none;
  shutdown = false;
  running_thread_num = 0;
  ifrunning = λ i. false;
  pc = λ i. locking;
  received = [];
  taken = [];
  handled = [];
}

-- What may happen next, with `n` workers.
pub data Step (n : ℕ) (s : ThreadPool) : ThreadPool → Type 0 where
  work : (i : ℕ) {s' : ThreadPool} → i < n → worker_step i s ≡ some s' → Step n s s'
  wake_one : (k : ℕ) → Step n s (wake_up k s)
  receive : (m : Msg) (k : ℕ) → s.owner ≡ none → Step n s (in_msg_recv_queue_and_signal m k s)
  stop : Step n s (stop_all s)

pub data Reach (n : ℕ) : ThreadPool → Type 0 where
  start : Reach n init
  later : {s s' : ThreadPool} → Reach n s → Step n s s' → Reach n s'
