-- ===== src/Sender/Conserve.antt =====
-- What is still to be sent on a connection, and one message handed to sendproc.
use net_server.Base.{
  ℕ, ◌+◌, ◌-◌, ◌≤◌, ◌<◌, ◌≡◌, refl, sym, ap, subst, ◌∙◌, ◌⊎◌, inl, inr, true, some, List, [], ◌∷◌,
  ◌++◌, append-nil, append_assoc, arith, length, take, drop, ◌==◌, if◌then◌else◌, Bool-cases,
  take-append-drop, take-length, length-drop,
}
use net_server.Types.{Conn, Msg, pkg_len}
use net_server.Base.Words.{is_pos32, dec32}
use net_server.Server.{Server, conn_at}
use net_server.Epoll.{oper_event}
use net_server.Sender.{
  SendOutcome, sent_bytes, sent_zero, buffer_full, broken, unsent, send_message, accepted,
  after_send, send_over, await_writable,
}

-- The package of each message is as long as its header says.
abbrev pub IsWhole : Msg → Type 0
IsWhole m = pkg_len m.pkg ≡ length m.pkg

-- The bytes of the queued messages of the connection `a` under the sequence number `seq`.
abbrev pub queued_bytes : ℕ → ℕ → List Msg → List ℕ
queued_bytes a seq [] = []
queued_bytes a seq (m ∷ rest) =
    if m.msg_header.conn == a
    then (if seq == m.msg_header.curr_sequence
        then m.pkg ++ queued_bytes a seq rest
        else queued_bytes a seq rest)
    else queued_bytes a seq rest

-- The rest of the message that is being sent.
abbrev pub in_flight : Conn → List ℕ
in_flight c = if is_pos32 c.throw_send_count then unsent c.send_buf c.send_mem else []

-- A connection between two calls: it waits for EPOLLOUT with a rest to send, or has nothing to send.
pub record IsSending (c : Conn) : Type 0 where
  pub flag : (c.throw_send_count ≡ 0) ⊎ (c.throw_send_count ≡ 1)
  pub busy : c.throw_send_count ≡ 1 → (m : Msg) × (c.send_mem ≡ some m)
  pub len : c.throw_send_count ≡ 1 → c.send_len ≡ length (unsent c.send_buf c.send_mem)

-- What send() is documented to return for `len` bytes, while the client is there: between 1 and
-- `len` bytes, or EAGAIN.
abbrev pub Progress : ℕ → SendOutcome → Type 0
Progress len (sent_bytes n) = (0 < n) × (n ≤ len)
Progress len sent_zero = ⊥
Progress len buffer_full = Unit {0}
Progress len broken = ⊥

-- Everything that was ever to go out on `a`, when the queue holds `msgs`.
abbrev pub output : ℕ → List Msg → Server → List ℕ
output a msgs s =
    s.sent a ++ (in_flight (conn_at s a) ++ queued_bytes a (conn_at s a).curr_sequence msgs)

-- What a call about `a` does to `a` itself: the bytes that were to go out still are, and `new` with
-- them.
pub record Sends (a : ℕ) (new : List ℕ) (s s' : Server) : Type 0 where
  pub bytes : s'.sent a ++ in_flight (conn_at s' a) ≡ (s.sent a ++ in_flight (conn_at s a)) ++ new
  pub sending : IsSending (conn_at s' a)
  pub seq : (conn_at s' a).curr_sequence ≡ (conn_at s a).curr_sequence

-- The connection alone: what was accepted and what is in flight make up the package.
record Splits (o : SendOutcome) (m : Msg) (seq : ℕ) (c : Conn) : Type 0 where
  bytes : accepted o m.pkg ++ in_flight c ≡ m.pkg
  sending : IsSending c
  seq_same : c.curr_sequence ≡ seq

module _ (m : Msg) (c : Conn) (z : c.throw_send_count ≡ 0) (em : c.send_mem ≡ some m)
    (eb : c.send_buf ≡ 0) (el : c.send_len ≡ length m.pkg) where
  waiting-IsSending :
      (c' : Conn) (n : ℕ)
      → c'.throw_send_count ≡ 1
      → c'.send_mem ≡ some m
      → c'.send_buf ≡ n
      → c'.send_len ≡ length m.pkg - n
      → IsSending c' × (in_flight c' ≡ drop n m.pkg)
  waiting-IsSending c' n t e b l = (
    record {
      flag = inr t;
      busy = λ _. (m, e);
      len = λ _. rw (e, b) (l ∙ sym (length-drop n m.pkg));
    },
    rw (t, e, b) refl,
  )

  idle-IsSending : (c' : Conn) → c'.throw_send_count ≡ 0 → IsSending c' × (in_flight c' ≡ [])
  idle-IsSending c' t = (
    record { flag = inl t; busy = λ e. absurd (omega arith); len = λ e. absurd (omega arith) },
    rw t refl,
  )

  after_send-Splits :
      (o : SendOutcome) → Progress (length m.pkg) o → Splits o m c.curr_sequence (after_send o c)
  unfolding oper_event
  after_send-Splits (sent_bytes n) p = elim (Bool-cases (n == c.send_len)) [
    | inl whole ↦
        let i = idle-IsSending (send_over c) refl in
        rw whole (record {
          bytes =
              ap (◌++◌ (take n m.pkg)) i.1
              ∙ append-nil (take n m.pkg)
              ∙ take-length n m.pkg (ground (arith, el));
          sending = i.0;
          seq_same = refl;
        })
    | inr part ↦
        let w =
          waiting-IsSending
            (await_writable (record c { send_buf = c.send_buf + n; send_len = c.send_len - n })) n
            (omega arith) em (omega (arith, eb)) (omega (arith, el)) in
        rw part (record {
          bytes = ap (◌++◌ (take n m.pkg)) w.1 ∙ take-append-drop n m.pkg;
          sending = w.0;
          seq_same = refl;
        })
  ]
  after_send-Splits sent_zero p = elim p [ ]
  after_send-Splits buffer_full p =
      let w = waiting-IsSending (await_writable c) 0 (omega arith) em eb (omega (arith, el)) in
      record { bytes = w.1; sending = w.0; seq_same = refl }
  after_send-Splits broken p = elim p [ ]

-- Sending a message of an idle connection.
pub send_message-Sends :
    (o : SendOutcome) (m : Msg) (s : Server)
    → IsWhole m
    → Progress (pkg_len m.pkg) o
    → (conn_at s m.msg_header.conn).throw_send_count ≡ 0
    → Sends m.msg_header.conn m.pkg s (send_message o m s)
unfolding send_message
send_message-Sends o m s w p z =
    let a = m.msg_header.conn in
    let c = conn_at s a in
    let ready : Conn = record c {
      send_count = dec32 c.send_count;
      send_mem = some m;
      send_buf = 0;
      send_len = pkg_len m.pkg;
    } in
    let f = after_send-Splits m ready z refl refl w o (subst (λ n. Progress n o) w p) in
    let idle : in_flight c ≡ [] = rw z refl in
    let same : (a == a) ≡ true = ground arith in
    record {
      bytes =
          rw (same, idle, append-nil)
            (append_assoc (s.sent a) (accepted o m.pkg) (in_flight (after_send o ready))
              ∙ ap (◌++◌ (s.sent a)) f.bytes);
      sending = rw same f.sending;
      seq = rw same f.seq_same;
    }
