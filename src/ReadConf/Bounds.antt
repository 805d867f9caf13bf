-- ===== src/ReadConf/Bounds.antt =====
-- The settings that the timers need.
use net_server.Base.{ℕ, ◌≤◌, ◌<◌, ◌^◌, List, arith, if◌then◌else◌}
use net_server.Types.{Config}
use net_server.ReadConf.{max_wait_time, above_five, read_conf}

at_least_five :
    (n : ℕ) → (5 ≤ (if above_five n then n else 5)) × ((if above_five n then n else 5) < 2 ^ 31)
at_least_five n = (ground arith, ground arith)

-- Whatever the file says, the waiting time of the timers is between 5 and 2 ^ 31 - 1 seconds, so that
-- a timer that is set again is due later. A negative number counts as too small.
pub read_conf-wait_time :
    (get_int_default : List ℕ → ℕ → ℕ) (c : Config)
    → (let wait_time = (read_conf get_int_default c).wait_time in
        (5 ≤ wait_time) × (wait_time < 2 ^ 31))
unfolding read_conf
read_conf-wait_time get_int_default c = at_least_five (get_int_default max_wait_time c.wait_time)
