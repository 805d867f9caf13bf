-- ===== src/EventLoop/Safety.antt =====
-- What a round of the event loop keeps, whatever the events are.
use net_server.Base.{
  ℕ, suc, ◌+◌, ◌^◌, ◌<◌, ◌≡◌, refl, subst, ◌∙◌, inl, inr, false, Option, some, List, [], ◌∷◌, All,
  arith, length, Bool-cases,
}
use net_server.Base.Words.{dec32}
use net_server.Types.{event_accept}
use net_server.Epoll.{has, epollin, epollout}
use net_server.Server.{Server, conn_at, set_conn, read_request_handler}
use net_server.Sender.{write_request_handler}
use net_server.Accept.{
  Worker, LockStatus, acquired, owner_dead, not_recoverable, busy, other_status, AcceptResult,
}
use net_server.Accept as Accept
use net_server.EventLoop.{
  Event, call_handler, readable, writable, is_broken, process_event, process_events,
}
use net_server.EventLoop.Handlers.{Held}
use net_server.EventLoop.Steady.{Steady, IsClient}
use net_server.EventLoop.Fine.{
  IsServer, IsWatched, IsWatched-Steady, Fine, Fine-refl, Fine-trans, Fine-weaken, drop_count-Fine,
  read_request_handler-Fine, write_request_handler-Fine, event_accept-Fine,
}

-- A result that is there, and fine.
abbrev pub FineResult : ℕ → Worker → Option Worker → Type 0
FineResult k w o = (w' : Worker) × (o ≡ some w') × Fine k w.server w'.server

add_one : (n : ℕ) → n + 1 ≡ suc n
add_one n = omega arith

module _ (alloc : ℕ → List ℕ) where
  readable-Fine :
      (e : Event) (w : Worker)
      → IsServer w.server
      → Held w.server.pool e.conn
      → IsClient w.server e.conn
      → FineResult 0 w (readable alloc e w)
  unfolding readable call_handler
  readable-Fine e w ok held client = elim (Bool-cases (has e.revents epollin)) [
    | inl comes ↦ (
      record w { server = read_request_handler alloc e.conn e.now e.ms e.incoming w.server },
      rw (comes, client.0) refl,
      read_request_handler-Fine alloc e.conn e.now e.ms e.incoming w.server held ok,
    )
    | inr nothing ↦ (w, rw nothing refl, Fine-refl w.server ok)
  ]

  writable-Fine :
      (e : Event) (w : Worker)
      → IsServer w.server
      → IsClient w.server e.conn
      → FineResult 0 w (writable alloc e w)
  unfolding writable call_handler
  writable-Fine e w ok client = elim (Bool-cases (has e.revents epollout)) [
    | inr nothing ↦ (w, rw nothing refl, Fine-refl w.server ok)
    | inl free ↦ elim (Bool-cases (is_broken e.revents)) [
      | inl gone ↦ (
        record w {
          server =
              set_conn e.conn (λ c. record c { throw_send_count = dec32 c.throw_send_count })
                w.server;
        },
        rw (free, gone) refl,
        drop_count-Fine e.conn w.server ok,
      )
      | inr fine ↦ (
        record w { server = write_request_handler e.conn e.outcome w.server },
        rw (free, fine, client.1) refl,
        write_request_handler-Fine e.conn e.outcome w.server ok,
      )
    ]
  ]

  -- A client's event.
  client-Fine :
      (e : Event) (w : Worker)
      → IsServer w.server
      → Held w.server.pool e.conn
      → IsClient w.server e.conn
      → FineResult 0 w (process_event alloc e w)
  unfolding process_event
  client-Fine e w ok held client =
      let (w₁, read, f) = readable-Fine e w ok held client in
      let (r, wr) = f.steady.handlers e.conn held in
      let (w₂, written, g) = writable-Fine e w₁ f.server (r ∙ client.0, wr ∙ client.1) in
      (w₂, rw read written, Fine-trans 0 0 w.server w₁.server w₂.server f g)

  listener-Fine :
      (e : Event) (w : Worker)
      → IsServer w.server
      → (conn_at w.server e.conn).rhandler ≡ some event_accept
      → has e.revents epollout ≡ false
      → suc (length w.server.timers.queue_map) < 2 ^ 64
      → FineResult 1 w (process_event alloc e w)
  unfolding process_event readable writable call_handler
  listener-Fine e w ok r quiet room = elim (Bool-cases (has e.revents epollin)) [
    | inl comes ↦ (
      Accept.event_accept e.now e.status e.net e.nonblocking e.added w,
      rw (comes, r, quiet) refl,
      event_accept-Fine e.now e.status e.net e.nonblocking e.added w ok room,
    )
    | inr nothing ↦
        (w, rw (nothing, quiet) refl, Fine-weaken w.server w.server (Fine-refl w.server ok))
  ]

  process_event-Fine :
      (e : Event) (w : Worker)
      → IsServer w.server
      → IsWatched w.server e
      → suc (length w.server.timers.queue_map) < 2 ^ 64
      → FineResult 1 w (process_event alloc e w)
  process_event-Fine e w ok (held, kind) room = elim kind [
    | inl listens ↦ listener-Fine e w ok listens.0 listens.1 room
    | inr client ↦
        let (w', done, f) = client-Fine e w ok held client in
        (w', done, Fine-weaken w.server w'.server f)
  ]

  All-IsWatched :
      (s s' : Server) (es : List Event) → Steady s s' → All (IsWatched s) es → All (IsWatched s') es
  All-IsWatched s s' [] st h = tt
  All-IsWatched s s' (e ∷ es) st (h, hs) =
      (IsWatched-Steady s s' e st h, All-IsWatched s s' es st hs)

  -- A round of the event loop never calls a handler that is not set, whatever the system calls
  -- return: it ends, the pool's books, the timer queue and the count of the messages to send are
  -- right afterwards, and every connection that a client had, or that waited to be recycled, is
  -- still one of these and has its handlers. The events are for such connections, and there is
  -- room for as many timers.
  pub process_events-Fine :
      (es : List Event) (w : Worker)
      → IsServer w.server
      → All (IsWatched w.server) es
      → length es + length w.server.timers.queue_map < 2 ^ 64
      → FineResult (length es) w (process_events alloc es w)
  unfolding process_events
  process_events-Fine [] w ok h room = (w, refl, Fine-refl w.server ok)
  process_events-Fine (e ∷ es) w ok (h, hs) room =
      let (w₁, first, f) = process_event-Fine e w ok h (omega arith) in
      let (w₂, last, g) =
        process_events-Fine es w₁ f.server (All-IsWatched w.server w₁.server es f.steady hs)
          (omega (arith, f.timers_le)) in
      (
        w₂,
        rw first last,
        subst (λ k. Fine k w.server w₂.server) (add_one (length es))
            (Fine-trans 1 (length es) w.server w₁.server w₂.server f g),
      )
