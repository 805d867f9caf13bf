-- ===== src/Examples/Monitoring.antt =====
-- Examples for Monitor.
use net_server.Base.{◌≡◌, some, arith}
use net_server.Server.{Server}
use net_server.Monitor.{monitor_round}
use net_server.Monitor.Round.{Monitored, monitor_round-Monitored}
use net_server.Examples.Data.{busy_server}
use net_server.Examples.Timing.{three_timers, three_timers-IsTimerQueue}

abbrev timed_server : Server
timed_server = record busy_server { timers = three_timers }

-- At the time 100 all three timers are due, and the last heartbeats were at 5.
monitor_round-Monitored_example :
    (s' : Server) × (monitor_round 4 100 100 timed_server ≡ some s')
    × Monitored 100 100 timed_server s'
monitor_round-Monitored_example =
    monitor_round-Monitored 4 100 100 timed_server three_timers-IsTimerQueue (omega arith)
      (omega arith)
