-- ===== src/Examples/Pooling.antt =====
-- Examples for Pool.
use net_server.Base.{ℕ, ◌≡◌, refl, [], ◌∷◌, arith, true, false}
use net_server.Pool.{Pool, get_connection, recy_connection_round, too_early}
use net_server.Pool.Invariant.{IsConsistent, InUse, get_connection-InUse}
use net_server.Pool.Sweep.{Recycled, recy_round-stopping, recy_round-running}
use net_server.Examples.Data.{settings, busy_server}

abbrev pub small_pool : Pool
small_pool = busy_server.pool

pub small_pool-IsConsistent : IsConsistent small_pool
small_pool-IsConsistent = record {
  total = refl;
  free = refl;
  recy = refl;
  once = λ a. ground arith;
  apart = λ a. omega arith;
  fresh = λ a h. ground arith;
}

-- Connection 1 waits to be recycled.
abbrev waiting_pool : Pool
waiting_pool = record small_pool { recy_list = 1 ∷ []; recy_n = 1; online_n = 1 }

waiting_pool-IsConsistent : IsConsistent waiting_pool
waiting_pool-IsConsistent = record {
  total = refl;
  free = refl;
  recy = refl;
  once = λ a. ground arith;
  apart = λ a. ground arith;
  fresh = λ a h. ground arith;
}

get_connection-InUse_example :
    let (a, p') = get_connection 9 100 small_pool in
    InUse p' a × ¬ InUse small_pool a × ((b : ℕ) → InUse small_pool b → InUse p' b)
get_connection-InUse_example = get_connection-InUse 9 100 small_pool small_pool-IsConsistent

recy_round-stopping_example :
    let p' = recy_connection_round settings 30 true waiting_pool in
    (p'.recy_list ≡ []) × (p'.free_list ≡ 1 ∷ []) × IsConsistent p'
recy_round-stopping_example =
    recy_round-stopping settings 30 waiting_pool waiting_pool-IsConsistent (omega arith)

recy_round-running_example :
    Recycled
      (λ a. too_early settings 30 false (waiting_pool.conns a))
      waiting_pool
      (recy_connection_round settings 30 false waiting_pool)
recy_round-running_example =
    recy_round-running settings 30 waiting_pool waiting_pool-IsConsistent (omega arith)
