-- ===== src/Examples/Answering.antt =====
-- Examples for Logic and Crc.
use net_server.Base.{ℕ, ◌≡◌, refl, List, [], ◌∷◌, arith, length-replicate, All, zero, suc}
use net_server.Types.{Msg}
use net_server.Crc.{get_crc, crc_loop}
use net_server.Crc.Bitwise.{IsByte, get_crc-register}
use net_server.Logic.{Command, do_ping, thread_recv_proc_func}
use net_server.Logic.Checks.{Accepts, thread_recv-drops}
use net_server.Logic.Answers.{Answered, thread_recv-answers}
use net_server.Examples.Data.{zeros, busy_server, ping_pkg, msg_for}

zeros-bytes : (n : ℕ) → All IsByte (zeros n)
zeros-bytes zero = tt
zeros-bytes (suc n) = (omega arith, zeros-bytes n)

ping-Accepts : Accepts busy_server (msg_for 0 1 ping_pkg) do_ping
unfolding get_crc crc_loop
ping-Accepts = record { intact = refl; current = refl; known = refl; sized = refl }

thread_recv-answers_example :
    Answered do_ping 50
      (msg_for 0 1 ping_pkg)
      busy_server
      (thread_recv_proc_func zeros 50 (msg_for 0 1 ping_pkg) busy_server)
thread_recv-answers_example =
    thread_recv-answers zeros (λ n. length-replicate n 0) zeros-bytes 50 (msg_for 0 1 ping_pkg)
      busy_server do_ping ping-Accepts (omega arith) (omega arith)

-- A heartbeat with a CRC that is not 0.
abbrev bad_ping : Msg
bad_ping = msg_for 0 1 (0 ∷ 8 ∷ 0 ∷ 0 ∷ 0 ∷ 0 ∷ 0 ∷ 1 ∷ [])

bad_ping-Accepts : (command : Command) → ¬ Accepts busy_server bad_ping command
unfolding get_crc crc_loop
bad_ping-Accepts command ok = omega (arith, ok.intact)

thread_recv-drops_example : thread_recv_proc_func zeros 50 bad_ping busy_server ≡ busy_server
thread_recv-drops_example =
    thread_recv-drops zeros 50 bad_ping busy_server (omega arith) bad_ping-Accepts

-- The digits from 1 to 9, with the check value that is published for CRC-32.
abbrev digits : List ℕ
digits = 49 ∷ 50 ∷ 51 ∷ 52 ∷ 53 ∷ 54 ∷ 55 ∷ 56 ∷ 57 ∷ []

get_crc-register_example : get_crc digits ≡ 0xcbf43926
get_crc-register_example = get_crc-register digits (omega arith)
