-- ===== src/Examples/Closing.antt =====
-- Examples for Server.
use net_server.Base.{ℕ, ◌≡◌, ◌≢◌, refl, [], ◌∷◌, inl, arith}
use net_server.Pool.Invariant.{IsConsistent}
use net_server.Timer.Order.{IsTimerQueue}
use net_server.Server.{conn_at, zd_close_socket_proc}
use net_server.Server.Closing.{IsClosed, zd_close-IsClosed, zd_close-zd_close}
use net_server.Examples.Data.{busy_server, no_timers}
use net_server.Examples.Pooling.{small_pool-IsConsistent}

no_timers-IsTimerQueue : IsTimerQueue no_timers
no_timers-IsTimerQueue = record { sorted = tt; size = refl; small = omega arith; head = tt }

zd_close-IsClosed_example :
    let s' = zd_close_socket_proc 1 100 busy_server in
    IsClosed 1 s'
    × IsConsistent s'.pool
    × IsTimerQueue s'.timers
    × (s'.closed ≡ 7 ∷ [])
    × ((b : ℕ) → b ≢ 1 → conn_at s' b ≡ conn_at busy_server b)
zd_close-IsClosed_example =
    zd_close-IsClosed 1 100 busy_server small_pool-IsConsistent no_timers-IsTimerQueue
      (inl (refl, refl, refl))

zd_close-zd_close_example :
    let once = zd_close_socket_proc 1 100 busy_server in
    let twice = zd_close_socket_proc 1 101 once in
    (twice.closed ≡ once.closed)
    × (twice.pool.recy_list ≡ once.pool.recy_list)
    × (twice.pool.recy_n ≡ once.pool.recy_n)
    × (twice.pool.online_n ≡ once.pool.online_n)
zd_close-zd_close_example = zd_close-zd_close 1 100 101 busy_server
