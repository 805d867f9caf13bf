-- ===== src/Sender/Resume.antt =====
-- ngx_write_request_handler goes on with the message that the sending thread could not finish.
use net_server.Base.{
  ℕ, zero, suc, ◌+◌, ◌-◌, ◌≡◌, refl, sym, ap, ap₂, ◌∙◌, if◌then◌else◌, inl, inr, true, Option, none,
  some, List, [], ◌∷◌, ◌++◌, append_assoc, append-nil, arith, take, drop, length, ◌==◌, Bool-cases,
  take-append-drop, take-length, length-drop, subst,
}
use net_server.Types.{Conn, Msg}
use net_server.Epoll.{oper_event, ctl_mod, epollout}
use net_server.Base.Words.{dec32, is_pos32}
use net_server.Server.{Server, conn_at, set_conn}
use net_server.Sender.{
  SendOutcome, sent_bytes, sent_zero, buffer_full, broken, unsent, write_request_handler,
  write_over, log_sent,
}
use net_server.Sender.Conserve.{in_flight, IsSending, Progress, Sends}

drop_nil : (n : ℕ) → drop {A = ℕ} n [] ≡ []
drop_nil zero = refl
drop_nil (suc n) = refl

drop-drop : (b n : ℕ) (xs : List ℕ) → drop (b + n) xs ≡ drop n (drop b xs)
drop-drop zero n xs = ap (λ k. drop k xs) (omega arith)
drop-drop (suc b) n [] = drop_nil (suc b + n) ∙ sym (drop_nil n)
drop-drop (suc b) n (x ∷ xs) =
    let shift : suc b + n ≡ suc (b + n) = omega arith in
    ap (λ k. drop k (x ∷ xs)) shift ∙ drop-drop b n xs

unsent-add : (b n : ℕ) (mem : Option Msg) → unsent (b + n) mem ≡ drop n (unsent b mem)
unsent-add b n none = sym (drop_nil n)
unsent-add b n (some m) = drop-drop b n m.pkg

-- A connection that waits has the unsent rest in flight.
waiting-in_flight : (c : Conn) → c.throw_send_count ≡ 1 → in_flight c ≡ unsent c.send_buf c.send_mem
waiting-in_flight c t = rw t refl

-- Nothing new, from the connection and the output afterwards.
nothing_new :
    (a : ℕ) (s s' : Server) (c : Conn) (out : List ℕ)
    → conn_at s' a ≡ c
    → s'.sent a ≡ out
    → out ++ in_flight c ≡ s.sent a ++ in_flight (conn_at s a)
    → IsSending c
    → c.curr_sequence ≡ (conn_at s a).curr_sequence
    → Sends a [] s s'
nothing_new a s s' c out ec eo b i q = record {
  bytes =
      ap₂ (λ o (x : Conn). o ++ in_flight x) eo ec
      ∙ b
      ∙ sym (append-nil (s.sent a ++ in_flight (conn_at s a)));
  sending = subst IsSending (sym ec) i;
  seq = ap (λ (x : Conn). x.curr_sequence) ec ∙ q;
}

-- When EPOLLOUT comes for a connection with a rest to send, the bytes that send() takes are the next
-- of that rest, and what stays in flight is what comes after them. Nothing is lost or repeated, and
-- the connection is again idle or waiting. send() takes some of the bytes or says EAGAIN.
pub write_request_handler-Sends :
    (a : ℕ) (o : SendOutcome) (s : Server)
    → IsSending (conn_at s a)
    → (conn_at s a).throw_send_count ≡ 1
    → Progress (conn_at s a).send_len o
    → Sends a [] s (write_request_handler a o s)
unfolding write_request_handler oper_event
write_request_handler-Sends a (sent_bytes n) s i t p =
    let c = conn_at s a in
    let same : (a == a) ≡ true = ground arith in
    let rest = unsent c.send_buf c.send_mem in
    let flight = waiting-in_flight c t in
    let len = i.len t in
    let out = s.sent a ++ take n rest in
    elim (Bool-cases (n == c.send_len)) [
      | inl whole ↦
          let c' : Conn = record (oper_event ctl_mod epollout 1 c) {
            send_mem = none;
            throw_send_count = dec32 c.throw_send_count;
          } in
          let idle : c'.throw_send_count ≡ 0 = ap dec32 t in
          let none_left : in_flight c' ≡ [] = ap (λ x. if is_pos32 x then [] else []) idle in
          rw whole (
            nothing_new a s
              (write_over a
                (set_conn a (oper_event ctl_mod epollout 1) (log_sent a (take n rest) s)))
              c' out (rw same refl) (rw same refl)
              (ap (◌++◌ out) none_left
                ∙ append-nil out
                ∙ ap (◌++◌ (s.sent a)) (take-length n rest (ground arith) ∙ sym flight))
              (record {
                flag = inl idle;
                busy = λ e. absurd (omega (arith, idle));
                len = λ e. absurd (omega (arith, idle));
              })
              refl)
      | inr part ↦
          let c' : Conn = record c { send_buf = c.send_buf + n; send_len = c.send_len - n } in
          let left = unsent-add c.send_buf n c.send_mem in
          rw part (
            nothing_new a s
              (set_conn a (λ x. record x { send_buf = x.send_buf + n; send_len = x.send_len - n })
                (log_sent a (take n rest) s))
              c' out (rw same refl) (rw same refl)
              (ap (◌++◌ out) (waiting-in_flight c' t ∙ left)
                ∙ append_assoc (s.sent a) (take n rest) (drop n rest)
                ∙ ap (◌++◌ (s.sent a)) (take-append-drop n rest ∙ sym flight))
              (record {
                flag = i.flag;
                busy = i.busy;
                len = λ e. ap (λ x. x - n) len ∙ sym (length-drop n rest) ∙ ap length (sym left);
              })
              refl)
    ]
write_request_handler-Sends a sent_zero s i t p = elim p [ ]
write_request_handler-Sends a buffer_full s i t p = record {
  bytes = sym (append-nil (s.sent a ++ in_flight (conn_at s a)));
  sending = i;
  seq = refl;
}
write_request_handler-Sends a broken s i t p = elim p [ ]
