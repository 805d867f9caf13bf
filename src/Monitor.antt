-- ===== src/Monitor.antt =====
-- A round of CSocekt::ServerTimerQueueMonitorThread of net/ngx_c_socket_time.cxx: the timers that are
-- due are collected, and CLogicSocket::procPingTimeOutChecking looks at each.
pub mod Kicks
pub mod Round
use net_server.Base.{ℕ, Bool, Option, none, some, List, [], ◌∷◌, ltb, ◌&&◌, if◌then◌else◌}
use net_server.Types.{MsgHeader}
use net_server.Timer.{collect}
use net_server.Server.{Server}
use net_server.Logic.{proc_ping_time_out_checking}

-- The loop over m_lsIdleList. The clock shows `now` when a client is closed.
unfoldable pub check_all : ℕ → ℕ → List MsgHeader → Server → Server
check_all now cur_time [] s = s
check_all now cur_time (h ∷ hs) s =
    check_all now cur_time hs (proc_ping_time_out_checking now h cur_time s)

-- One round of ServerTimerQueueMonitorThread at the time `cur_time`. `none` means that the fuel for
-- the collection ran out.
unfoldable pub monitor_round : ℕ → ℕ → ℕ → Server → Option Server
monitor_round fuel now cur_time s =
    if ltb 0 s.timers.cur_size && ltb s.timers.timer_value cur_time
    then elim (collect s.cfg cur_time fuel s.timers) [
      | none ↦ none
      | some (hs, timers) ↦ some (check_all now cur_time hs (record s { timers = timers }))
    ]
    else some s
