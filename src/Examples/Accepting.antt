-- ===== src/Examples/Accepting.antt =====
-- Examples for Accept.
use net_server.Base.{◌≤◌, Bool, true, false, arith}
use net_server.Pool.Invariant.{IsConsistent}
use net_server.Accept.{AcceptResult, accepted, not_implemented, acquired, Worker, event_accept}
use net_server.Accept.Outcome.{Outcome, handed, event_accept-Outcome, event_accept-limit}
use net_server.Examples.Data.{busy_server}
use net_server.Examples.Pooling.{small_pool-IsConsistent}

abbrev worker : Worker
worker = record { server = busy_server; use_accept4 = true; holds = false }

-- accept4 is missing, and accept returns the descriptor 9.
abbrev old_kernel : Bool → AcceptResult
old_kernel true = not_implemented
old_kernel false = accepted 9

event_accept-Outcome_example :
    let s' = (event_accept 100 acquired old_kernel true true worker).server in
    Outcome 100 (handed acquired old_kernel worker) busy_server s' × IsConsistent s'.pool
event_accept-Outcome_example =
    event_accept-Outcome 100 acquired old_kernel true true worker small_pool-IsConsistent

event_accept-limit_example :
    (event_accept 100 acquired old_kernel true true worker).server.pool.online_n ≤ 4
event_accept-limit_example =
    event_accept-limit 100 acquired old_kernel true true worker small_pool-IsConsistent
      (omega arith) (omega arith)
