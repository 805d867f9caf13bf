-- ===== src/Examples/Timing.antt =====
-- Examples for Timer.
use net_server.Base.{ℕ, ◌≡◌, refl, [], ◌∷◌, some, arith}
use net_server.Types.{MsgHeader}
use net_server.Timer.{TimerQueue, delete_from_timer_queue, collect}
use net_server.Timer.Order.{IsTimerQueue, delete-IsTimerQueue}
use net_server.Timer.Drain.{Drained, collect-total}
use net_server.Examples.Data.{settings}

abbrev pub header_of : ℕ → MsgHeader
header_of a = record { conn = a; curr_sequence = 1 }

abbrev pub three_timers : TimerQueue
three_timers = record {
  queue_map = (10, header_of 1) ∷ (20, header_of 2) ∷ (30, header_of 1) ∷ [];
  cur_size = 3;
  timer_value = 10;
}

pub three_timers-IsTimerQueue : IsTimerQueue three_timers
three_timers-IsTimerQueue = record {
  sorted = (omega arith, (omega arith, (omega arith, tt)));
  size = refl;
  small = omega arith;
  head = refl;
}

delete-IsTimerQueue_example :
    let q' = delete_from_timer_queue 1 three_timers in
    IsTimerQueue q' × (q'.queue_map ≡ (20, header_of 2) ∷ [])
delete-IsTimerQueue_example = delete-IsTimerQueue 1 three_timers three_timers-IsTimerQueue

collect-total_example :
    (q' : TimerQueue) × (collect settings 25 4 three_timers
      ≡ some (header_of 1 ∷ header_of 2 ∷ [], q'))
    × Drained settings 25 three_timers q'
collect-total_example =
    collect-total settings 25 4 three_timers three_timers-IsTimerQueue (omega arith) (omega arith)
