-- ===== src/ThreadPool/Workers.antt =====
-- What is right for a worker of the thread pool, and how many workers count themselves.
use net_server.Base.{
  ℕ, zero, suc, ◌+◌, ◌%◌, ◌^◌, ◌≤◌, ◌<◌, ◌≡◌, refl, sym, ap, ap₂, subst, ◌∙◌, ◌≢◌, ◌⊎◌, inl, inr,
  Bool, true, false, Option, none, some, List, ◌++◌, arith, length, ◌==◌, update, Bool-cases,
  ==_iff,
}
use net_server.Types.{Msg}
use net_server.ThreadPool.{
  Pc, locking, testing, entering_wait, waiting, relocking, leaving, took, working, freed, finished,
  crashed, ThreadPool, wake,
}

abbrev pub IfSome {ℓ κ} : {A : Type ℓ} → (A → Type κ) → Option A → Type κ
IfSome P none = Unit
IfSome P (some a) = P a

-- What is right for a worker: it has the mutex where the code says so, and behind the inner loop there
-- is a message or the pool stops.
abbrev pub WorkerOk : ℕ → Option ℕ → Bool → List Msg → Pc → Type 0
WorkerOk i owner shutdown msgs testing = owner ≡ some i
WorkerOk i owner shutdown msgs entering_wait = owner ≡ some i
WorkerOk i owner shutdown msgs leaving = (owner ≡ some i) × ((shutdown ≡ true) ⊎ (1 ≤ length msgs))
WorkerOk i owner shutdown msgs crashed = ⊥
WorkerOk i owner shutdown msgs locking = Unit
WorkerOk i owner shutdown msgs waiting = Unit
WorkerOk i owner shutdown msgs relocking = Unit
WorkerOk i owner shutdown msgs (took m) = Unit
WorkerOk i owner shutdown msgs (working m) = Unit
WorkerOk i owner shutdown msgs freed = Unit
WorkerOk i owner shutdown msgs finished = Unit

-- How many workers count themselves as running.
abbrev pub counts : Pc → ℕ
counts (working m) = 1
counts freed = 1
counts locking = 0
counts testing = 0
counts entering_wait = 0
counts waiting = 0
counts relocking = 0
counts leaving = 0
counts (took m) = 0
counts finished = 0
counts crashed = 0

abbrev pub working_number : ℕ → (ℕ → Pc) → ℕ
working_number zero pc = 0
working_number (suc n) pc = counts (pc n) + working_number n pc

pub record IsThreadPool (n : ℕ) (s : ThreadPool) : Type 0 where
  pub workers : (i : ℕ) → WorkerOk i s.owner s.shutdown s.recvs.msgs (s.pc i)
  pub order : s.received ≡ s.taken ++ s.recvs.msgs
  pub count : s.recvs.count ≡ length s.recvs.msgs % 2 ^ 32
  pub running : s.running_thread_num ≡ working_number n s.pc % 2 ^ 32

-- A worker without the mutex does not mind what the others do.
pub WorkerOk-others :
    (i : ℕ) (o o' : Option ℕ) (d d' : Bool) (ms ms' : List Msg) (p : Pc)
    → o ≢ some i
    → WorkerOk i o d ms p
    → WorkerOk i o' d' ms' p
WorkerOk-others i o o' d d' ms ms' testing free ok = absurd (free ok)
WorkerOk-others i o o' d d' ms ms' entering_wait free ok = absurd (free ok)
WorkerOk-others i o o' d d' ms ms' leaving free ok = absurd (free ok.0)
WorkerOk-others i o o' d d' ms ms' crashed free ok = ok
WorkerOk-others i o o' d d' ms ms' locking free ok = tt
WorkerOk-others i o o' d d' ms ms' waiting free ok = tt
WorkerOk-others i o o' d d' ms ms' relocking free ok = tt
WorkerOk-others i o o' d d' ms ms' (took m) free ok = tt
WorkerOk-others i o o' d d' ms ms' (working m) free ok = tt
WorkerOk-others i o o' d d' ms ms' freed free ok = tt
WorkerOk-others i o o' d d' ms ms' finished free ok = tt

pub WorkerOk-wake :
    (i : ℕ) (o : Option ℕ) (d : Bool) (ms : List Msg) (p : Pc)
    → WorkerOk i o d ms p
    → WorkerOk i o d ms (wake p)
WorkerOk-wake i o d ms locking ok = ok
WorkerOk-wake i o d ms testing ok = ok
WorkerOk-wake i o d ms entering_wait ok = ok
WorkerOk-wake i o d ms waiting ok = ok
WorkerOk-wake i o d ms relocking ok = ok
WorkerOk-wake i o d ms leaving ok = ok
WorkerOk-wake i o d ms (took m) ok = ok
WorkerOk-wake i o d ms (working m) ok = ok
WorkerOk-wake i o d ms freed ok = ok
WorkerOk-wake i o d ms finished ok = ok
WorkerOk-wake i o d ms crashed ok = ok

pub WorkerOk-stop :
    (i : ℕ) (o : Option ℕ) (d : Bool) (ms : List Msg) (p : Pc)
    → WorkerOk i o d ms p
    → WorkerOk i o true ms (wake p)
WorkerOk-stop i o d ms locking ok = ok
WorkerOk-stop i o d ms testing ok = ok
WorkerOk-stop i o d ms entering_wait ok = ok
WorkerOk-stop i o d ms waiting ok = ok
WorkerOk-stop i o d ms relocking ok = ok
WorkerOk-stop i o d ms leaving ok = (ok.0, inl refl)
WorkerOk-stop i o d ms (took m) ok = ok
WorkerOk-stop i o d ms (working m) ok = ok
WorkerOk-stop i o d ms freed ok = ok
WorkerOk-stop i o d ms finished ok = ok
WorkerOk-stop i o d ms crashed ok = ok

counts-wake : (p : Pc) → counts (wake p) ≡ counts p
counts-wake locking = refl
counts-wake testing = refl
counts-wake entering_wait = refl
counts-wake waiting = refl
counts-wake relocking = refl
counts-wake leaving = refl
counts-wake (took m) = refl
counts-wake (working m) = refl
counts-wake freed = refl
counts-wake finished = refl
counts-wake crashed = refl

pub working_number-wake :
    (n : ℕ) (pc : ℕ → Pc) → working_number n (λ j. wake (pc j)) ≡ working_number n pc
working_number-wake zero pc = refl
working_number-wake (suc n) pc = ap₂ (◌+◌) (counts-wake (pc n)) (working_number-wake n pc)

-- One worker moves on: the number changes by what this worker counts.
not_same : (n i : ℕ) → suc n ≤ i → (n == i) ≡ false
not_same n i le = ground arith

working_number-update_above :
    (n i : ℕ) (pc : ℕ → Pc) (p : Pc)
    → n ≤ i
    → working_number n (update pc i p) ≡ working_number n pc
working_number-update_above zero i pc p le = refl
working_number-update_above (suc n) i pc p le =
    let other = not_same n i le in
    rw other (ap (counts (pc n) +◌) (working_number-update_above n i pc p (omega arith)))

pub update-hit : (j i : ℕ) (pc : ℕ → Pc) (p : Pc) → (j == i) ≡ true → update pc i p j ≡ p
update-hit j i pc p hit = rw hit refl

pub update-miss : (j i : ℕ) (pc : ℕ → Pc) (p : Pc) → (j == i) ≡ false → update pc i p j ≡ pc j
update-miss j i pc p miss = rw miss refl

below_other : (n i : ℕ) → i < suc n → (n == i) ≡ false → i < n
below_other n i lt miss = ground (arith, lt, miss)

differs : (j i : ℕ) → (j == i) ≡ false → j ≢ i
differs j i miss = ground (arith, miss)

pub working_number-update :
    (n i : ℕ) (pc : ℕ → Pc) (p : Pc)
    → i < n
    → working_number n (update pc i p) + counts (pc i) ≡ working_number n pc + counts p
working_number-update zero i pc p lt = absurd (omega arith)
working_number-update (suc n) i pc p lt = elim (Bool-cases (n == i)) [
  | inl hit ↦
      let same = (==_iff n i).0 hit in
      let here = ap counts (update-hit n i pc p hit) in
      let there = ap (λ k. counts (pc k)) same in
      let below = working_number-update_above n i pc p (omega (arith, same)) in
      omega (arith, here, there, below)
  | inr miss ↦
      let here = ap counts (update-miss n i pc p miss) in
      let below = working_number-update n i pc p (below_other n i lt miss) in
      omega (arith, here, below)
]

-- A step of worker `i` that ends at `p`: the others keep what they had.
pub workers-update :
    (i : ℕ) (s : ThreadPool) (o : Option ℕ) (d : Bool) (ms : List Msg) (p : Pc)
    → ((j : ℕ) → j ≢ i → WorkerOk j o d ms (s.pc j))
    → WorkerOk i o d ms p
    → (j : ℕ) → WorkerOk j o d ms (update s.pc i p j)
workers-update i s o d ms p others ok j = elim (Bool-cases (j == i)) [
  | inl hit ↦
      let same = (==_iff j i).0 hit in
      subst (WorkerOk j o d ms) (sym (update-hit j i s.pc p hit))
        (subst (λ k. WorkerOk k o d ms p) (sym same) ok)
  | inr miss ↦
      subst (WorkerOk j o d ms) (sym (update-miss j i s.pc p miss)) (others j (differs j i miss))
]

pub working_number-wake_one :
    (n k : ℕ) (pc : ℕ → Pc) → working_number n (update pc k (wake (pc k))) ≡ working_number n pc
working_number-wake_one zero k pc = refl
working_number-wake_one (suc n) k pc = ap₂ (◌+◌) (one n k pc) (working_number-wake_one n k pc)
  where
    one : (j k : ℕ) (pc : ℕ → Pc) → counts (update pc k (wake (pc k)) j) ≡ counts (pc j)
    one j k pc = elim (Bool-cases (j == k)) [
      | inl hit ↦
          ap counts (update-hit j k pc (wake (pc k)) hit)
          ∙ counts-wake (pc k)
          ∙ ap (λ i. counts (pc i)) (sym ((==_iff j k).0 hit))
      | inr miss ↦ ap counts (update-miss j k pc (wake (pc k)) miss)
    ]

pub working_number-locking : (n : ℕ) → working_number n (λ i. locking) ≡ 0
working_number-locking zero = refl
working_number-locking (suc n) = ap (0 +◌) (working_number-locking n)
