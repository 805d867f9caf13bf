-- ===== src/Examples/Running.antt =====
-- Examples for Process.
use net_server.Base.{◌≡◌, refl, some, [], ◌∷◌, inl, arith}
use net_server.Server.{Server}
use net_server.Logic.{thread_recv_proc_func}
use net_server.Timer.{TimerQueue}
use net_server.Monitor.{monitor_round}
use net_server.EventLoop.Fine.{IsServer, Fine}
use net_server.Process.Threads.{thread_recv-Fine}
use net_server.Process.Background.{monitor_round-Fine}
use net_server.Examples.Data.{zeros, ping_pkg, msg_for}
use net_server.Examples.Looping.{serving, serving-IsServer}
use net_server.Examples.Timing.{header_of}

-- A client sends a heartbeat.
thread_recv-Fine_example :
    Fine 0 serving.server (thread_recv_proc_func zeros 50 (msg_for 1 1 ping_pkg) serving.server)
thread_recv-Fine_example =
    thread_recv-Fine zeros 50 (msg_for 1 1 ping_pkg) serving.server (λ e. inl (refl, refl, refl))
      serving-IsServer

-- A client with two timers, of which both are due at the time 100.
abbrev two_timers : TimerQueue
two_timers = record {
  queue_map = (10, header_of 1) ∷ (30, header_of 1) ∷ [];
  cur_size = 2;
  timer_value = 10;
}

abbrev timed : Server
timed = record serving.server { timers = two_timers }

timed-IsServer : IsServer timed
timed-IsServer = record {
  books = serving-IsServer.books;
  timers = record {
    sorted = (omega arith, (omega arith, tt));
    size = refl;
    small = omega arith;
    head = refl;
  };
  sends = serving-IsServer.sends;
}

monitor_round-Fine_example :
    (s' : Server) × (monitor_round 3 100 100 timed ≡ some s') × Fine 0 timed s'
monitor_round-Fine_example =
    monitor_round-Fine 3 100 100 timed (omega arith) (omega arith)
      (λ e. inl (refl, refl, refl), (λ e. inl (refl, refl, refl), tt)) timed-IsServer
