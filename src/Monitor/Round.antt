-- ===== src/Monitor/Round.antt =====
-- A whole round of the timer thread.
use net_server.Base.{
  ℕ, ◌<◌, ◌≡◌, refl, inl, inr, false, some, List, [], ◌∷◌, ◌&&◌, arith, All, length, ltb,
  Bool-cases,
}
use net_server.Types.{MsgHeader}
use net_server.Timer.{Entry}
use net_server.Timer.Order.{IsTimerQueue}
use net_server.Timer.Drain.{due_headers, collect-total}
use net_server.Server.{Server, conn_at}
use net_server.Monitor.{check_all, monitor_round}
use net_server.Monitor.Kicks.{IsOverdue, IsGone, Has, Spared, check_all-closes, check_all-spares}

-- What a round leaves behind, from the headers that are due.
pub record Monitored (now cur_time : ℕ) (s s' : Server) : Type 0 where
  pub closes :
      (h : MsgHeader)
      → Has h (due_headers cur_time s.timers.queue_map)
      → s.timers.timer_value < cur_time
      → IsOverdue s.cfg cur_time h (conn_at s h.conn)
      → IsGone h.conn s'
  pub spares :
      (a : ℕ)
      → All (Spared now cur_time s a) (due_headers cur_time s.timers.queue_map)
      → conn_at s' a ≡ conn_at s a

some_due :
    (cur_time : ℕ) (h : MsgHeader) (xs : List Entry)
    → Has h (due_headers cur_time xs)
    → 0 < length xs
some_due cur_time h [] at = absurd at
some_due cur_time h (x ∷ xs) at = omega arith

-- A round of the timer thread ends, with fuel for one step more than entries are due. If the earliest
-- time has passed, it closes each connection that has a timer which is due, was set for the client
-- that is still there, and finds it without a heartbeat for too long (or clients are kicked at the
-- first time-out). A connection with no such timer is not touched. The waiting time is above 0.
pub monitor_round-Monitored :
    (fuel now cur_time : ℕ) (s : Server)
    → IsTimerQueue s.timers
    → 0 < s.cfg.wait_time
    → length (due_headers cur_time s.timers.queue_map) < fuel
    → (s' : Server) × (monitor_round fuel now cur_time s ≡ some s') × Monitored now cur_time s s'
unfolding monitor_round
monitor_round-Monitored fuel now cur_time s timers pos enough =
    let hs = due_headers cur_time s.timers.queue_map in
    let c = collect-total s.cfg cur_time fuel s.timers timers pos enough in
    let t : Server = record s { timers = c.0 } in
    elim (Bool-cases (ltb 0 s.timers.cur_size && ltb s.timers.timer_value cur_time)) [
      | inl now_due ↦ (
        check_all now cur_time hs t,
        rw (now_due, c.1) refl,
        record {
          closes = λ h at passed o. check_all-closes now cur_time hs t h at o;
          spares = λ a ok. check_all-spares now cur_time hs t a ok;
        },
      )
      | inr early ↦ (
        s,
        rw early refl,
        record {
          closes = λ h at passed o.
              let some_entry = some_due cur_time h s.timers.queue_map at in
              absurd (
                not_early s.timers.cur_size s.timers.timer_value cur_time early
                  (omega (arith, some_entry, timers.size)) passed);
          spares = λ a ok. refl;
        },
      )
    ]
  where
    not_early : (n v k : ℕ) → (ltb 0 n && ltb v k) ≡ false → 0 < n → v < k → ⊥
    not_early n v k e pos lt = ground arith
