-- ===== src/Process/Background.antt =====
-- What the sending thread and the timer thread keep.
use net_server.Base.{
  ℕ, ◌+◌, ◌*◌, ◌<◌, ◌≤◌, ◌≡◌, refl, sym, ap, subst, ◌∙◌, inl, inr, some, List, [], ◌∷◌, arith,
  length, Bool-cases, ◌==◌, ltb, All, ◌&&◌,
}
use native.Mathlib.Decide.{ℕ_discrete}
use net_server.Base.Words.{is_pos32, dec32}
use net_server.Types.{Conn, Config, Msg, MsgHeader, pkg_len}
use net_server.Pool.Handing.{IsConsistent-conns}
use net_server.Timer.{TimerQueue, Entry}
use net_server.Timer.Order.{IsTimerQueue}
use net_server.Timer.Drain.{due_headers, later, Drained, collect-total}
use net_server.Server.{Server, conn_at, zd_close_socket_proc}
use net_server.Server.Closing.{zd_close-others}
use net_server.Sender.{
  SendOutcome, sent_bytes, sent_zero, buffer_full, broken, after_send, send_message, send_step,
  send_loop, send_round,
}
use net_server.Epoll.{oper_event}
use net_server.Sender.Counting.{send_round-IsSendQueue}
use net_server.Logic.{proc_ping_time_out_checking}
use net_server.Monitor.{check_all, monitor_round}
use net_server.EventLoop.Handlers.{SameHandlers, Held}
use net_server.EventLoop.Steady.{Calm, Calm-trans, Calm-Steady}
use net_server.EventLoop.Fine.{IsServer, Fine, Fine-refl, Fine-trans, zd_close-Fine}
use net_server.Process.{Known}

after_send-SameHandlers : (o : SendOutcome) (c : Conn) → SameHandlers c (after_send o c)
unfolding oper_event
after_send-SameHandlers (sent_bytes n) c = ground arith
after_send-SameHandlers sent_zero c = (refl, refl)
after_send-SameHandlers buffer_full c = (refl, refl)
after_send-SameHandlers broken c = (refl, refl)

-- The timers are left alone too.
record Mild (s s' : Server) : Type 0 where
  calm : Calm s s'
  timers : s'.timers ≡ s.timers

Mild-refl : (s : Server) → Mild s s
Mild-refl s = record { calm = record { lists = refl; handlers = λ b. (refl, refl) }; timers = refl }

Mild-trans : (s t u : Server) → Mild s t → Mild t u → Mild s u
Mild-trans s t u f g = record {
  calm = Calm-trans s t u f.calm g.calm;
  timers = g.timers ∙ f.timers;
}

send_message-Mild : (o : SendOutcome) (m : Msg) (s : Server) → Mild s (send_message o m s)
unfolding send_message oper_event
send_message-Mild o m s =
    let a = m.msg_header.conn in
    let c = conn_at s a in
    let ready : Conn = record c {
      send_count = dec32 c.send_count;
      send_mem = some m;
      send_buf = 0;
      send_len = pkg_len m.pkg;
    } in
    let same = after_send-SameHandlers o ready in
    record { calm = record { lists = refl; handlers = λ b. ground (arith, same) }; timers = refl }

module _ (net : ℕ → ℕ → SendOutcome) where
  send_step-Mild : (m : Msg) (k : ℕ) (s : Server) → Mild s (send_step net m k s).2
  unfolding send_step
  send_step-Mild m k s =
      let c = conn_at s m.msg_header.conn in
      elim (Bool-cases (c.curr_sequence == m.msg_header.curr_sequence)) [
        | inr stale ↦
            rw stale (record {
              calm = record { lists = refl; handlers = λ b. (refl, refl) };
              timers = refl;
            })
        | inl current ↦ rw current (elim (Bool-cases (is_pos32 c.throw_send_count)) [
          | inl waits ↦ rw waits (Mild-refl s)
          | inr idle ↦ rw idle (send_message-Mild (net k (pkg_len m.pkg)) m s)
        ])
      ]

  send_loop-Mild : (ms : List Msg) (k : ℕ) (s : Server) → Mild s (send_loop net ms k s).1
  unfolding send_loop
  send_loop-Mild [] k s = Mild-refl s
  send_loop-Mild (m ∷ ms) k s =
      let r = send_step net m k s in
      Mild-trans s r.2 _ (send_step-Mild m k s) (send_loop-Mild ms r.1 r.2)

  send_round-Mild : (s : Server) → Mild s (send_round net s)
  unfolding send_round
  send_round-Mild s = elim (Bool-cases (is_pos32 s.sends.count)) [
    | inr nothing ↦ rw nothing (Mild-refl s)
    | inl some_wait ↦
        let l = send_loop-Mild s.sends.msgs 0 s in
        rw some_wait (record {
          calm = record { lists = l.calm.lists; handlers = l.calm.handlers };
          timers = l.timers;
        })
  ]

  -- A round of the sending thread.
  pub send_round-Fine : (s : Server) → IsServer s → Fine 0 s (send_round net s)
  send_round-Fine s ok =
      let m = send_round-Mild s in
      record {
        server = record {
          books = IsConsistent-conns s.pool (send_round net s).pool m.calm.lists ok.books;
          timers = subst IsTimerQueue (sym m.timers) ok.timers;
          sends = (send_round-IsSendQueue net s ok.sends).0;
        };
        steady = Calm-Steady s (send_round net s) m.calm;
        timers_le = omega (arith, ap (λ (q : TimerQueue). length q.queue_map) m.timers);
      }

length-later : (now : ℕ) (xs : List Entry) → length (later now xs) ≤ length xs
length-later now [] = omega arith
length-later now ((t, h) ∷ xs) = ground (arith, length-later now xs)

Drained-length :
    (cfg : Config) (now : ℕ) (q q' : TimerQueue)
    → Drained cfg now q q'
    → length q'.queue_map ≤ length q.queue_map
Drained-length cfg now q q' d = elim (ℕ_discrete cfg.timeout_kick 1) [
  | yes kick ↦ omega (arith, ap length (d.kicked kick), length-later now q.queue_map)
  | no stay ↦ omega (arith, d.kept stay)
]

-- Closing a connection that is held leaves the others known.
zd_close-Known :
    (a now : ℕ) (s : Server) (h : MsgHeader)
    → Fine 0 s (zd_close_socket_proc a now s)
    → Held s.pool a
    → Known s h
    → Known (zd_close_socket_proc a now s) h
zd_close-Known a now s h f own known e = elim (ℕ_discrete h.conn a) [
  | yes same ↦ f.steady.held h.conn (subst (Held s.pool) (sym same) own)
  | no other ↦
      f.steady.held h.conn (
        known (sym (ap (λ (c : Conn). c.curr_sequence) (zd_close-others a now s h.conn other)) ∙ e))
]

-- Looking at one header.
record Checked (s s' : Server) : Type 0 where
  fine : Fine 0 s s'
  known : (h : MsgHeader) → Known s h → Known s' h

Checked-refl : (s : Server) → IsServer s → Checked s s
Checked-refl s ok = record { fine = Fine-refl s ok; known = λ h k. k }

zd_close-Checked :
    (a now : ℕ) (s : Server) → Held s.pool a → IsServer s → Checked s (zd_close_socket_proc a now s)
zd_close-Checked a now s held ok =
    let f = zd_close-Fine a now s held ok in
    record { fine = f; known = λ h k. zd_close-Known a now s h f held k }

check-Checked :
    (now : ℕ) (h : MsgHeader) (cur_time : ℕ) (s : Server)
    → Known s h
    → IsServer s
    → Checked s (proc_ping_time_out_checking now h cur_time s)
unfolding proc_ping_time_out_checking
check-Checked now h cur_time s known ok =
    let c = conn_at s h.conn in
    elim (Bool-cases (h.curr_sequence == c.curr_sequence)) [
      | inr stale ↦ rw stale (Checked-refl s ok)
      | inl current ↦
          let close = zd_close-Checked h.conn now s (known (ground (arith, current))) ok in
          rw current (elim (Bool-cases (s.cfg.timeout_kick == 1)) [
            | inl kick ↦ rw kick close
            | inr wait ↦
                rw wait
                  (elim (Bool-cases
                    (ltb (c.last_ping_time + (s.cfg.wait_time * 3 + 10)) cur_time)) [
                      | inl late ↦ rw late close
                      | inr in_time ↦ rw in_time (Checked-refl s ok)
                    ])
          ])
    ]

All-Known :
    (s s' : Server) (hs : List MsgHeader) → Checked s s' → All (Known s) hs → All (Known s') hs
All-Known s s' [] c k = tt
All-Known s s' (h ∷ hs) c (k, ks) = (c.known h k, All-Known s s' hs c ks)

check_all-Fine :
    (now cur_time : ℕ) (hs : List MsgHeader) (s : Server)
    → All (Known s) hs
    → IsServer s
    → Fine 0 s (check_all now cur_time hs s)
unfolding check_all
check_all-Fine now cur_time [] s ks ok = Fine-refl s ok
check_all-Fine now cur_time (h ∷ hs) s (k, ks) ok =
    let t = proc_ping_time_out_checking now h cur_time s in
    let c = check-Checked now h cur_time s k ok in
    Fine-trans 0 0 s t (check_all now cur_time hs t) c.fine
      (check_all-Fine now cur_time hs t (All-Known s t hs c ks) c.fine.server)

-- A round of the timer thread ends, given one step more than entries are due. If no other thread acts
-- meanwhile, it leaves the books of the pool, the timer queue and the count of the messages to send
-- right, and no more timers than before, though it closes any number of connections. Every connection
-- that was in use, or waited to be recycled, still is or does, with its handlers as they were. The
-- waiting time is above 0, and each entry that is due and has the sequence number of its connection is
-- for one that is in use or waits to be recycled.
pub monitor_round-Fine :
    (fuel now cur_time : ℕ) (s : Server)
    → 0 < s.cfg.wait_time
    → length (due_headers cur_time s.timers.queue_map) < fuel
    → All (Known s) (due_headers cur_time s.timers.queue_map)
    → IsServer s
    → (s' : Server) × (monitor_round fuel now cur_time s ≡ some s') × Fine 0 s s'
unfolding monitor_round
monitor_round-Fine fuel now cur_time s pos enough ks ok =
    let hs = due_headers cur_time s.timers.queue_map in
    let c = collect-total s.cfg cur_time fuel s.timers ok.timers pos enough in
    let t : Server = record s { timers = c.0 } in
    let first : Fine 0 s t = record {
      server = record { books = ok.books; timers = c.2.queue; sends = ok.sends };
      steady = Calm-Steady s t (record { lists = refl; handlers = λ b. (refl, refl) });
      timers_le = omega (arith, Drained-length s.cfg cur_time s.timers c.0 c.2);
    } in
    elim (Bool-cases (ltb 0 s.timers.cur_size && ltb s.timers.timer_value cur_time)) [
      | inl now_due ↦ (
        check_all now cur_time hs t,
        rw (now_due, c.1) refl,
        Fine-trans 0 0 s t (check_all now cur_time hs t) first
            (check_all-Fine now cur_time hs t ks first.server),
      )
      | inr early ↦ (s, rw early refl, Fine-refl s ok)
    ]
