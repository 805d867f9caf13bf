-- ===== src/ThreadPool/Stopping.antt =====
-- StopAll and the workers that wait.
use net_server.Base.{
  ℕ, ◌<◌, ◌≡◌, refl, sym, ap, subst, ◌∙◌, inl, inr, Bool, true, false, ◌&&◌, not, Option, none,
  some, List, [], ◌∷◌, arith, ◌==◌, if◌then◌else◌, Bool-cases, Option-cases, ==_iff,
}
use net_server.Types.{Msg}
use net_server.ThreadPool.{
  Pc, locking, testing, entering_wait, waiting, relocking, leaving, took, working, freed, finished,
  crashed, ThreadPool, at_pc, lock, is_empty, step_from, test, leave, worker_step, wake, stop_all,
}
use net_server.ThreadPool.Workers.{IfSome, update-hit, update-miss}

-- What the workers do, in any order, while pthread_cond_wait returns for none of them.
pub data Run (n : ℕ) (s : ThreadPool) : ThreadPool → Type 0 where
  run_none : Run n s s
  run_step : {t u : ThreadPool} (j : ℕ) → Run n s t → j < n → worker_step j t ≡ some u → Run n s u

-- What a step of one worker leaves alone.
record Leaves (i : ℕ) (s s' : ThreadPool) : Type 0 where
  same_pc : s'.pc i ≡ s.pc i
  same_shutdown : s'.shutdown ≡ s.shutdown

lock-Leaves : (i j : ℕ) (s : ThreadPool) → (i == j) ≡ false → IfSome (Leaves i s) (lock j s)
lock-Leaves i j s ne = elim (Option-cases s.owner) [
  | inl unlocked ↦
      rw unlocked (record { same_pc = update-miss i j s.pc testing ne; same_shutdown = refl })
  | inr (k, locked) ↦ rw locked tt
]

test-Leaves : (i j : ℕ) (s : ThreadPool) → (i == j) ≡ false → Leaves i s (test j s)
test-Leaves i j s ne = elim (Bool-cases (is_empty s.recvs.msgs && not s.shutdown)) [
  | inl e ↦
      simp (e) (record { same_pc = update-miss i j s.pc entering_wait ne; same_shutdown = refl })
  | inr e ↦ simp (e) (record { same_pc = update-miss i j s.pc leaving ne; same_shutdown = refl })
]

leave-Leaves :
    (i j : ℕ) (s : ThreadPool) (msgs : List Msg) (d : Bool)
    → (i == j) ≡ false
    → s.recvs.msgs ≡ msgs
    → s.shutdown ≡ d
    → Leaves i s (leave j s)
leave-Leaves i j s msgs true ne q d =
    simp (d) (record { same_pc = update-miss i j s.pc finished ne; same_shutdown = sym d })
leave-Leaves i j s [] false ne q d =
    simp (d, q) (record { same_pc = update-miss i j s.pc crashed ne; same_shutdown = sym d })
leave-Leaves i j s (m ∷ ms) false ne q d =
    simp (d, q) (record { same_pc = update-miss i j s.pc (took m) ne; same_shutdown = sym d })

step_from-Leaves :
    (i j : ℕ) (s : ThreadPool) (p : Pc) → (i == j) ≡ false → IfSome (Leaves i s) (step_from j s p)
step_from-Leaves i j s locking ne = lock-Leaves i j s ne
step_from-Leaves i j s relocking ne = lock-Leaves i j s ne
step_from-Leaves i j s testing ne = test-Leaves i j s ne
step_from-Leaves i j s entering_wait ne = record {
  same_pc = update-miss i j s.pc waiting ne;
  same_shutdown = refl;
}
step_from-Leaves i j s waiting ne = tt
step_from-Leaves i j s leaving ne = leave-Leaves i j s s.recvs.msgs s.shutdown ne refl refl
step_from-Leaves i j s (took m) ne = record {
  same_pc = update-miss i j s.pc (working m) ne;
  same_shutdown = refl;
}
step_from-Leaves i j s (working m) ne = record {
  same_pc = update-miss i j s.pc freed ne;
  same_shutdown = refl;
}
step_from-Leaves i j s freed ne = record {
  same_pc = update-miss i j s.pc locking ne;
  same_shutdown = refl;
}
step_from-Leaves i j s finished ne = tt
step_from-Leaves i j s crashed ne = tt

blocked : (s' : ThreadPool) → ◌≡◌ {A = Option ThreadPool} none (some s') → ⊥
blocked s' e = ground (arith, e)

stays :
    (i j : ℕ) (s s' : ThreadPool)
    → worker_step j s ≡ some s'
    → s.pc i ≡ waiting
    → (s'.pc i ≡ waiting) × (s'.shutdown ≡ s.shutdown)
unfolding worker_step
stays i j s s' e waits = elim (Bool-cases (i == j)) [
  | inl same ↦
      let at = ap s.pc (sym ((==_iff i j).0 same)) ∙ waits in
      absurd (blocked s' (sym (ap (step_from j s) at) ∙ e))
  | inr other ↦
      let l = subst (IfSome (Leaves i s)) e (step_from-Leaves i j s (s.pc j) other) in
      (l.same_pc ∙ waits, l.same_shutdown)
]

Run-waiting :
    (n i : ℕ) (s t : ThreadPool)
    → Run n s t
    → s.pc i ≡ waiting
    → (t.pc i ≡ waiting) × (t.shutdown ≡ s.shutdown)
Run-waiting n i s t run_none waits = (waits, refl)
Run-waiting n i s t (run_step j r lt e) waits =
    let (w, d) = Run-waiting n i s _ r waits in let (w', d') = stays i j _ t e w in (w', d' ∙ d)

-- pthread_cond_wait has given the mutex back.
abbrev pub asleep : ℕ → ThreadPool → ThreadPool
asleep i s = at_pc i waiting (record s { owner = none })

stop_all-entering_wait :
    (i : ℕ) (s : ThreadPool)
    → s.pc i ≡ entering_wait
    → ((stop_all s).pc i ≡ entering_wait) × ((stop_all s).shutdown ≡ true)
unfolding stop_all
stop_all-entering_wait i s at =
    let stopped : ThreadPool = record s { shutdown = true; pc = λ j. wake (s.pc j) } in
    elim (Bool-cases s.shutdown) [
      | inl again ↦
          subst (λ u. (u.pc i ≡ entering_wait) × (u.shutdown ≡ true))
            (ap (λ d. if d then s else stopped) (sym again)) (at, again)
      | inr first ↦
          subst (λ u. (u.pc i ≡ entering_wait) × (u.shutdown ≡ true))
            (ap (λ d. if d then s else stopped) (sym first)) (ap wake at, refl)
    ]

-- A worker that has found the queue empty and is about to wait misses the broadcast of StopAll: it
-- waits all the same, and whatever the workers then do, it waits still, though the pool has been told
-- to stop. No wake-up without a cause comes.
pub stop_all-misses :
    (n i : ℕ) (s t : ThreadPool)
    → s.pc i ≡ entering_wait
    → Run n (asleep i (stop_all s)) t
    → (worker_step i (stop_all s) ≡ some (asleep i (stop_all s)))
      × (t.pc i ≡ waiting)
      × (t.shutdown ≡ true)
unfolding worker_step
stop_all-misses n i s t at r =
    let (here, stops) = stop_all-entering_wait i s at in
    let now = update-hit i i (stop_all s).pc waiting (same i) in
    let (w, d) = Run-waiting n i (asleep i (stop_all s)) t r now in
    (ap (step_from i (stop_all s)) here, w, d ∙ stops)
  where
    same : (i : ℕ) → (i == i) ≡ true
    same i = ground arith
