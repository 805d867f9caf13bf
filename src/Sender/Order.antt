-- ===== src/Sender/Order.antt =====
-- The loop of ServerSendQueueThread over the send queue, as one connection sees it.
use net_server.Base.{
  ℕ, suc, ◌≡◌, refl, sym, ap, ap₂, subst, ◌∙◌, ◌⊎◌, inl, inr, Bool, true, false, List, [], ◌∷◌,
  ◌++◌, append_assoc, arith, All, ◌==◌, if◌then◌else◌, Bool-cases,
}
use net_server.Types.{Conn, Msg, pkg_len}
use net_server.Base.Words.{is_pos32}
use net_server.Server.{Server, conn_at}
use net_server.Sender.{SendOutcome, send_message, send_step, send_loop, send_round}
use net_server.Sender.Conserve.{
  IsWhole, queued_bytes, in_flight, IsSending, Progress, output, Sends, send_message-Sends,
}

-- A call leaves the connection `a` and its output alone.
abbrev Untouched : ℕ → Server → Server → Type 0
Untouched a s s' = (conn_at s' a ≡ conn_at s a) × (s'.sent a ≡ s.sent a)

-- The message `m` does not count as queued for `a`.
abbrev IsForeign : ℕ → Server → Msg → Type 0
IsForeign a s m =
    (rest : List Msg)
    → queued_bytes a (conn_at s a).curr_sequence (m ∷ rest)
      ≡ queued_bytes a (conn_at s a).curr_sequence rest

-- It does, and comes first.
abbrev IsNext : ℕ → Server → Msg → Type 0
IsNext a s m =
    (rest : List Msg)
    → queued_bytes a (conn_at s a).curr_sequence (m ∷ rest)
      ≡ m.pkg ++ queued_bytes a (conn_at s a).curr_sequence rest

module _ (net : ℕ → ℕ → SendOutcome) where
  step_other :
      (a : ℕ) (m : Msg) (k : ℕ) (s : Server)
      → (m.msg_header.conn == a) ≡ false
      → Untouched a s (send_step net m k s).2
  unfolding send_step send_message
  step_other a m k s ne =
      let other : (a == m.msg_header.conn) ≡ false = ground arith in (ground arith, ground arith)

  step_expired :
      (m : Msg) (k : ℕ) (s : Server)
      → ((conn_at s m.msg_header.conn).curr_sequence == m.msg_header.curr_sequence) ≡ false
      → Untouched m.msg_header.conn s (send_step net m k s).2
  unfolding send_step
  step_expired m k s es = rw es (refl, refl)

  step_blocked :
      (m : Msg) (k : ℕ) (s : Server)
      → ((conn_at s m.msg_header.conn).curr_sequence == m.msg_header.curr_sequence) ≡ true
      → is_pos32 (conn_at s m.msg_header.conn).throw_send_count ≡ true
      → send_step net m k s ≡ (true, k, s)
  unfolding send_step
  step_blocked m k s es t = rw (es, t) refl

  step_sends :
      (m : Msg) (k : ℕ) (s : Server)
      → ((conn_at s m.msg_header.conn).curr_sequence == m.msg_header.curr_sequence) ≡ true
      → is_pos32 (conn_at s m.msg_header.conn).throw_send_count ≡ false
      → send_step net m k s ≡ (false, suc k, send_message (net k (pkg_len m.pkg)) m s)
  unfolding send_step
  step_sends m k s es t = rw (es, t) refl

  -- What a message means to the connection `a`, and what its step does.
  abbrev Skipped : ℕ → Msg → ℕ → Server → Type 0
  Skipped a m k s = IsForeign a s m × Untouched a s (send_step net m k s).2

  abbrev Blocked : ℕ → Msg → ℕ → Server → Type 0
  Blocked a m k s =
      IsNext a s m
      × (is_pos32 (conn_at s a).throw_send_count ≡ true)
      × (send_step net m k s ≡ (true, k, s))

  abbrev Sent : ℕ → Msg → ℕ → Server → Type 0
  Sent a m k s =
      IsNext a s m
      × (is_pos32 (conn_at s a).throw_send_count ≡ false)
      × (m.msg_header.conn ≡ a)
      × (send_step net m k s ≡ (false, suc k, send_message (net k (pkg_len m.pkg)) m s))

  step_own :
      (m : Msg) (k : ℕ) (s : Server)
      → let a = m.msg_header.conn in Skipped a m k s ⊎ (Blocked a m k s ⊎ Sent a m k s)
  step_own m k s =
      let a = m.msg_header.conn in
      let same : (a == a) ≡ true = ground arith in
      elim (Bool-cases ((conn_at s a).curr_sequence == m.msg_header.curr_sequence)) [
        | inr old ↦ inl ((λ rest. rw (same, old) refl), step_expired m k s old)
        | inl live ↦ elim (Bool-cases (is_pos32 (conn_at s a).throw_send_count)) [
          | inl t ↦ inr (inl ((λ rest. rw (same, live) refl), t, step_blocked m k s live t))
          | inr t ↦ inr (inr ((λ rest. rw (same, live) refl), t, refl, step_sends m k s live t))
        ]
      ]

  step-cases :
      (a : ℕ) (m : Msg) (k : ℕ) (s : Server) → Skipped a m k s ⊎ (Blocked a m k s ⊎ Sent a m k s)
  step-cases a m k s = elim (Bool-cases (m.msg_header.conn == a)) [
    | inr ne ↦ inl ((λ rest. rw ne refl), step_other a m k s ne)
    | inl e ↦
        subst (λ b. Skipped b m k s ⊎ (Blocked b m k s ⊎ Sent b m k s)) (ground arith)
          (step_own m k s)
  ]

  -- The bytes of `a` in what the loop leaves.
  abbrev left_bytes : ℕ → ℕ → List Msg → ℕ → Server → List ℕ
  left_bytes a seq msgs k s = queued_bytes a seq (send_loop net msgs k s).0

  if_foreign :
      (a : ℕ) (m : Msg) (s : Server)
      → IsForeign a s m
      → (stays : Bool) (kept : List Msg)
      → queued_bytes a (conn_at s a).curr_sequence (if stays then m ∷ kept else kept)
        ≡ queued_bytes a (conn_at s a).curr_sequence kept
  if_foreign a m s f true kept = f kept
  if_foreign a m s f false kept = refl

  -- While `a` is blocked the loop leaves it alone.
  blocked_loop :
      (a : ℕ) (msgs : List Msg) (k : ℕ) (s : Server)
      → is_pos32 (conn_at s a).throw_send_count ≡ true
      → Untouched a s (send_loop net msgs k s).1
        × (left_bytes a (conn_at s a).curr_sequence msgs k s
            ≡ queued_bytes a (conn_at s a).curr_sequence msgs)
  unfolding send_loop
  blocked_loop a [] k s t = ((refl, refl), refl)
  blocked_loop a (m ∷ rest) k s t =
      let r = send_step net m k s in
      let next = λ (u : Untouched a s r.2).
        blocked_loop a rest r.1 r.2 (ap (λ (c : Conn). is_pos32 c.throw_send_count) u.0 ∙ t) in
      elim (step-cases a m k s) [
        | inl x ↦
            let i = next x.1 in
            (
              (i.0.0 ∙ x.1.0, i.0.1 ∙ x.1.1),
              if_foreign a m s x.0 r.0 (send_loop net rest r.1 r.2).0
                  ∙ subst
                      (λ (c : Conn).
                        left_bytes a c.curr_sequence rest r.1 r.2
                        ≡ queued_bytes a c.curr_sequence rest)
                      x.1.0 i.1
                  ∙ sym (x.0 rest),
            )
        | inr (inl b) ↦
            let i = blocked_loop a rest k s t in
            rw b.2 (i.0, b.0 (send_loop net rest k s).0 ∙ ap (◌++◌ m.pkg) i.1 ∙ sym (b.0 rest))
        | inr (inr n) ↦ ground arith
      ]

  -- What the loop does to `a`.
  abbrev Outputs : ℕ → List Msg → ℕ → Server → Type 0
  Outputs a msgs k s =
      let r = send_loop net msgs k s in
      (output a r.0 r.1 ≡ output a msgs s)
      × IsSending (conn_at r.1 a)
      × ((conn_at r.1 a).curr_sequence ≡ (conn_at s a).curr_sequence)

  -- The output, from its parts.
  abbrev joined : ℕ → List Msg → List ℕ → Conn → List ℕ
  joined a msgs done c = done ++ (in_flight c ++ queued_bytes a c.curr_sequence msgs)

  joined_cong :
      (a : ℕ) (done : List ℕ) (c : Conn) (ms ms' : List Msg)
      → queued_bytes a c.curr_sequence ms ≡ queued_bytes a c.curr_sequence ms'
      → joined a ms done c ≡ joined a ms' done c
  joined_cong a done c ms ms' e = ap (λ q. done ++ (in_flight c ++ q)) e

  output_same :
      (a : ℕ) (ms : List Msg) (s s' : Server) → Untouched a s s' → output a ms s' ≡ output a ms s
  output_same a ms s s' u = ap₂ (λ b c. joined a ms b c) u.1 u.0

  -- A message of `a` that was sent or put in flight.
  sent_output :
      (a : ℕ) (m : Msg) (rest : List Msg) (s s' : Server)
      → IsNext a s m
      → Sends a m.pkg s s'
      → output a rest s' ≡ output a (m ∷ rest) s
  sent_output a m rest s s' n d =
      let seq = (conn_at s a).curr_sequence in
      let q = queued_bytes a seq rest in
      let f = in_flight (conn_at s a) in
      ap (λ x. s'.sent a ++ (in_flight (conn_at s' a) ++ queued_bytes a x rest)) d.seq
      ∙ sym (append_assoc (s'.sent a) (in_flight (conn_at s' a)) q)
      ∙ ap (λ x. x ++ q) d.bytes
      ∙ append_assoc (s.sent a ++ f) m.pkg q
      ∙ append_assoc (s.sent a) f (m.pkg ++ q)
      ∙ ap (λ x. s.sent a ++ (f ++ x)) (sym (n rest))

  foreign_output :
      (a : ℕ) (m : Msg) (rest kept : List Msg) (stays : Bool) (s s' s'' : Server)
      → IsForeign a s m
      → Untouched a s s'
      → (conn_at s'' a).curr_sequence ≡ (conn_at s a).curr_sequence
      → output a kept s'' ≡ output a rest s'
      → output a (if stays then m ∷ kept else kept) s'' ≡ output a (m ∷ rest) s
  foreign_output a m rest kept stays s s' s'' f u q e =
      joined_cong a (s''.sent a) (conn_at s'' a) (if stays then m ∷ kept else kept) kept (
        subst (λ x. queued_bytes a x (if stays then m ∷ kept else kept) ≡ queued_bytes a x kept)
          (sym q) (if_foreign a m s f stays kept))
      ∙ e
      ∙ output_same a rest s s' u
      ∙ joined_cong a (s.sent a) (conn_at s a) rest (m ∷ rest) (sym (f rest))

  idle : (c : Conn) → IsSending c → is_pos32 c.throw_send_count ≡ false → c.throw_send_count ≡ 0
  idle c i e = elim i.flag [
    | inl z ↦ z
    | inr o ↦ let t : is_pos32 c.throw_send_count ≡ true = ap is_pos32 o in ground arith
  ]

  module _ (a : ℕ) (progress : (k len : ℕ) → Progress len (net k len)) where
    send_loop-output :
        (msgs : List Msg) (k : ℕ) (s : Server)
        → All IsWhole msgs
        → IsSending (conn_at s a)
        → Outputs a msgs k s
    unfolding send_loop
    send_loop-output [] k s w i = (refl, i, refl)
    send_loop-output (m ∷ rest) k s w i =
        let r = send_step net m k s in
        elim (step-cases a m k s) [
          | inl x ↦
              let o = send_loop-output rest r.1 r.2 w.1 (subst IsSending (sym x.1.0) i) in
              let q = o.2 ∙ ap (λ (c : Conn). c.curr_sequence) x.1.0 in
              let l = send_loop net rest r.1 r.2 in
              (foreign_output a m rest l.0 r.0 s r.2 l.1 x.0 x.1 q o.0, o.1, q)
          | inr (inl b) ↦
              let o = blocked_loop a rest k s b.1 in
              let l = send_loop net rest k s in
              rw b.2 (
                output_same a (m ∷ l.0) s l.1 o.0
                    ∙ joined_cong a (s.sent a) (conn_at s a) (m ∷ l.0) (m ∷ rest)
                        (b.0 l.0 ∙ ap (◌++◌ m.pkg) o.1 ∙ sym (b.0 rest)),
                subst IsSending (sym o.0.0) i,
                ap (λ (c : Conn). c.curr_sequence) o.0.0,
              )
          | inr (inr n) ↦
              let out = net k (pkg_len m.pkg) in
              let s' = send_message out m s in
              let z =
                subst (λ b. (conn_at s b).throw_send_count ≡ 0) (sym n.2)
                  (idle (conn_at s a) i n.1) in
              let d =
                subst (λ b. Sends b m.pkg s s') n.2
                  (send_message-Sends out m s w.0 (progress k (pkg_len m.pkg)) z) in
              let o = send_loop-output rest (suc k) s' w.1 d.sending in
              rw n.3 (o.0 ∙ sent_output a m rest s s' n.0 d, o.1, o.2 ∙ d.seq)
        ]

    -- One round of the sending thread moves bytes of a connection from its queue to its buffer and
    -- from there to the network, and neither loses, repeats nor reorders any: what was sent, then what
    -- is in flight, then what is queued under the connection's sequence number is the same sequence of
    -- bytes before and after. The queue holds whole packages, the connection waits with a rest to send
    -- or is idle, and send() takes some of the bytes or says EAGAIN.
    pub send_round-output :
        (s : Server)
        → All IsWhole s.sends.msgs
        → IsSending (conn_at s a)
        → let s' = send_round net s in
          (output a s'.sends.msgs s' ≡ output a s.sends.msgs s)
          × IsSending (conn_at s' a)
          × ((conn_at s' a).curr_sequence ≡ (conn_at s a).curr_sequence)
    unfolding send_round
    send_round-output s w i = elim (Bool-cases (is_pos32 s.sends.count)) [
      | inl e ↦ rw e (send_loop-output s.sends.msgs 0 s w i)
      | inr e ↦ rw e (refl, i, refl)
    ]
