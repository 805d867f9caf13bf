-- ===== src/Sender/Counting.antt =====
-- m_iSendMsgQueueCount over a round of the sending thread.
use net_server.Base.{
  ℕ, suc, ◌+◌, ◌^◌, ◌≤◌, ◌<◌, ◌≡◌, refl, Bool, List, [], ◌∷◌, arith, length, inl, inr, Bool-cases,
  subst, if◌then◌else◌, ◌==◌,
}
use net_server.Base.Words.{dec32, is_pos32}
use net_server.Types.{Msg, pkg_len}
use net_server.Server.{Server, conn_at}
use net_server.Server.Queueing.{IsSendQueue}
use net_server.Sender.{SendOutcome, send_message, send_step, send_loop, send_round}

-- What counts as one in the queue.
abbrev stays_count : Bool → ℕ
stays_count b = if b then 1 else 0

send_message-count :
    (o : SendOutcome) (m : Msg) (s : Server)
    → (send_message o m s).sends.count ≡ dec32 s.sends.count
unfolding send_message
send_message-count o m s = refl

module _ (net : ℕ → ℕ → SendOutcome) where
  send_step-count :
      (m : Msg) (k : ℕ) (s : Server)
      → 0 < s.sends.count
      → s.sends.count < 2 ^ 31
      → let r = send_step net m k s in r.2.sends.count + 1 ≡ s.sends.count + stays_count r.0
  unfolding send_step
  send_step-count m k s pos small =
      let c = conn_at s m.msg_header.conn in
      elim (Bool-cases (c.curr_sequence == m.msg_header.curr_sequence)) [
        | inr stale ↦ rw stale (omega arith)
        | inl fresh ↦ elim (Bool-cases (is_pos32 c.throw_send_count)) [
          | inl waits ↦ rw (fresh, waits) refl
          | inr free ↦
              rw (fresh, free) (omega (arith, send_message-count (net k (pkg_len m.pkg)) m s))
        ]
      ]

  send_loop-count :
      (ms : List Msg) (k e : ℕ) (s : Server)
      → s.sends.count ≡ length ms + e
      → s.sends.count < 2 ^ 31
      → let r = send_loop net ms k s in
        (r.1.sends.count ≡ length r.0 + e) × (length r.0 ≤ length ms)
  unfolding send_loop
  send_loop-count [] k e s eq small = (eq, omega arith)
  send_loop-count (m ∷ ms) k e s eq small =
      let r = send_step net m k s in
      let one = send_step-count m k s (omega arith) small in
      elim (Bool-cases r.0) [
        | inl stays ↦
            let one' : r.2.sends.count + 1 ≡ s.sends.count + 1 =
              subst (λ b. r.2.sends.count + 1 ≡ s.sends.count + stays_count b) stays one in
            let ih = send_loop-count ms r.1 (suc e) r.2 (omega arith) (omega arith) in
            rw stays (omega (arith, ih.0, ih.1), omega (arith, ih.1))
        | inr goes ↦
            let one' : r.2.sends.count + 1 ≡ s.sends.count + 0 =
              subst (λ b. r.2.sends.count + 1 ≡ s.sends.count + stays_count b) goes one in
            let ih = send_loop-count ms r.1 e r.2 (omega arith) (omega arith) in
            rw goes (omega (arith, ih.0), omega (arith, ih.1))
      ]

  -- A round of the sending thread keeps the counter in step with the queue, which does not grow.
  pub send_round-IsSendQueue :
      (s : Server)
      → IsSendQueue s.sends
      → IsSendQueue (send_round net s).sends
        × (length (send_round net s).sends.msgs ≤ length s.sends.msgs)
  unfolding send_round
  send_round-IsSendQueue s ok = elim (Bool-cases (is_pos32 s.sends.count)) [
    | inr nothing ↦ rw nothing (ok, omega arith)
    | inl some_wait ↦
        let l =
          send_loop-count s.sends.msgs 0 0 s (omega (arith, ok.counted))
            (omega (arith, ok.counted, ok.bounded)) in
        rw some_wait
          (record { counted = omega (arith, l.0); bounded = omega (arith, l.1, ok.bounded) }, l.1)
  ]
