-- ===== src/Server/Queueing.antt =====
-- msgSend: the queue of messages to send, its counter and its limits.
use net_server.Base.{
  ℕ, ◌+◌, ◌^◌, ◌≤◌, ◌<◌, ◌≡◌, ◌≢◌, refl, sym, subst, ◌∙◌, false, List, [], ◌∷◌, ◌++◌, arith, length,
  length-append, inl, inr, Bool-cases,
}
use net_server.Base.Words.{inc32}
use net_server.Types.{Msg}
use net_server.Server.{
  Server, SendQueue, conn_at, set_conn, zd_close_socket_proc, close_fd, drop_throw_send,
  forget_timers, msg_send, clear_msg_send_queue, exceeds, max_send_queue, max_send_count,
}

exceeds-le : (x k : ℕ) → x ≤ k → exceeds x k ≡ false
exceeds-le x k h = ground arith

exceeds-false : (x k : ℕ) → exceeds x k ≡ false → x < 2 ^ 31 → x ≤ k
exceeds-false x k e small = ground arith

-- Below the limits a message is put behind the others.
pub msg_send-queued :
    (now : ℕ) (m : Msg) (s : Server)
    → s.sends.count ≤ max_send_queue
    → (conn_at s m.msg_header.conn).send_count ≤ max_send_count
    → msg_send now m s
      ≡ record (set_conn m.msg_header.conn (λ c. record c { send_count = inc32 c.send_count }) s) {
        sends = record s.sends {
          msgs = s.sends.msgs ++ m ∷ [];
          count = inc32 s.sends.count;
          sem = s.sends.sem + 1;
        };
      }
unfolding msg_send
msg_send-queued now m s le le' =
    rw (exceeds-le s.sends.count max_send_queue le)
      (rw (exceeds-le (conn_at s m.msg_header.conn).send_count max_send_count le') refl)

-- The counter agrees with the queue, which is one message over its limit at most.
pub record IsSendQueue (q : SendQueue) : Type 0 where
  pub counted : q.count ≡ length q.msgs
  pub bounded : length q.msgs ≤ max_send_queue + 1

pub zd_close-sends : (a now : ℕ) (s : Server) → (zd_close_socket_proc a now s).sends ≡ s.sends
unfolding zd_close_socket_proc close_fd drop_throw_send forget_timers
zd_close-sends a now s = ground arith

-- msgSend keeps the counter in step with the queue and the queue within its limit, whether it
-- queues the message, drops it, or cuts the client off.
pub msg_send-IsSendQueue :
    (now : ℕ) (m : Msg) (s : Server) → IsSendQueue s.sends → IsSendQueue (msg_send now m s).sends
unfolding msg_send
msg_send-IsSendQueue now m s ok = elim (Bool-cases (exceeds s.sends.count max_send_queue)) [
  | inl full ↦ rw full (record { counted = ok.counted; bounded = ok.bounded })
  | inr room ↦ elim (Bool-cases (exceeds (conn_at s m.msg_header.conn).send_count max_send_count)) [
    | inl slow ↦
        let discarded : Server = record s {
          sends = record s.sends { discard = inc32 s.sends.discard };
        } in
        let same = zd_close-sends m.msg_header.conn now discarded in
        rw (room, slow)
          (subst IsSendQueue (sym same) (record { counted = ok.counted; bounded = ok.bounded }))
    | inr fair ↦
        let few =
          exceeds-false s.sends.count max_send_queue room (omega (arith, ok.counted, ok.bounded)) in
        let la = length-append s.sends.msgs (m ∷ []) in
        rw (room, fair)
          (record {
            counted = omega (arith, la, ok.counted, few, ok.bounded);
            bounded = omega (arith, la, few, ok.counted);
          })
  ]
]

-- clearMsgSendQueue empties the queue and leaves the counter: unless the queue was empty, the two
-- disagree afterwards.
pub clear_msg_send_queue-miscounts :
    (q : SendQueue) → IsSendQueue q → q.msgs ≢ [] → ¬ IsSendQueue (clear_msg_send_queue q)
unfolding clear_msg_send_queue
clear_msg_send_queue-miscounts q ok filled after =
    filled (nil_of_length q.msgs (sym ok.counted ∙ after.counted))
  where
    nil_of_length : (ms : List Msg) → length ms ≡ 0 → ms ≡ []
    nil_of_length [] e = refl
    nil_of_length (x ∷ ms) e = absurd (omega arith)
