-- ===== src/Examples/Logging.antt =====
-- Examples for Log.
use net_server.Base.Text.{bytes}
use net_server.Log.{Libc, Time}
use net_server.Log.Written.{Written}

-- The C library, as far as the error 2 goes.
abbrev small_libc : Libc
small_libc = record { strerror = λ n. bytes "No such file"; decimal = λ n. bytes "2" }

abbrev noon : Time
noon = record { year = 2019; mon = 1; mday = 8; hour = 12; min = 0; sec = 5 }
