-- ===== src/Examples/Sending.antt =====
-- Examples for Sender.
use net_server.Base.{ℕ, zero, suc, ◌≡◌, refl, [], inl, inr, some, arith, min}
use net_server.Server.{Server, conn_at, set_conn}
use net_server.Sender.{SendOutcome, sent_bytes, buffer_full, send_round, write_request_handler}
use net_server.Sender.Conserve.{IsSending, Progress, Sends, output}
use net_server.Sender.Order.{send_round-output}
use net_server.Sender.Resume.{write_request_handler-Sends}
use net_server.Examples.Data.{busy_server, msg_for, small_pkg}

-- The first attempt takes at most five bytes, the others find the buffer full.
abbrev slow_net : ℕ → ℕ → SendOutcome
slow_net zero zero = buffer_full
slow_net zero (suc n) = sent_bytes (min 5 (suc n))
slow_net (suc k) len = buffer_full

slow_net-Progress : (k len : ℕ) → Progress len (slow_net k len)
slow_net-Progress zero zero = tt
slow_net-Progress zero (suc n) = (omega arith, omega arith)
slow_net-Progress (suc k) len = tt

busy-IsSending : IsSending (conn_at busy_server 0)
busy-IsSending = record {
  flag = inl refl;
  busy = λ e. absurd (omega arith);
  len = λ e. absurd (omega arith);
}

send_round-output_example :
    let s' = send_round slow_net busy_server in
    (output 0 s'.sends.msgs s' ≡ output 0 busy_server.sends.msgs busy_server)
    × IsSending (conn_at s' 0)
    × ((conn_at s' 0).curr_sequence ≡ 1)
send_round-output_example =
    send_round-output slow_net 0 slow_net-Progress busy_server (refl, (refl, (refl, tt)))
      busy-IsSending

-- Four of the ten bytes of a message are gone.
abbrev half_sent : Server
half_sent =
    set_conn 0
      (λ c. record c {
        throw_send_count = 1;
        send_mem = some (msg_for 0 1 small_pkg);
        send_buf = 4;
        send_len = 6;
      })
      busy_server

half_sent-IsSending : IsSending (conn_at half_sent 0)
half_sent-IsSending = record {
  flag = inr refl;
  busy = λ e. (msg_for 0 1 small_pkg, refl);
  len = λ e. refl;
}

write_request_handler-Sends_example :
    Sends 0 [] half_sent (write_request_handler 0 (sent_bytes 2) half_sent)
write_request_handler-Sends_example =
    write_request_handler-Sends 0 (sent_bytes 2) half_sent half_sent-IsSending refl
      (omega arith, omega arith)
