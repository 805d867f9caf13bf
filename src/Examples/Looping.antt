-- ===== src/Examples/Looping.antt =====
-- Examples for Listening and EventLoop.
use net_server.Base.{
  ℕ, ◌+◌, ◌≡◌, refl, true, false, none, some, List, [], ◌∷◌, All, get_or, inl, inr, arith, ◌==◌,
  if◌then◌else◌,
}
use net_server.Types.{event_accept, write_request, read_request}
use net_server.Pool.{empty_pool}
use net_server.Epoll.{epollin, epollhup}
use net_server.Server.{Server, received}
use net_server.Sender.{buffer_full}
use net_server.Accept.{Worker, acquired, accepted}
use net_server.EventLoop.{Event, process_events}
use net_server.EventLoop.Fine.{IsServer}
use net_server.EventLoop.Safety.{FineResult, process_events-Fine}
use net_server.Listening.{
  Listening, SocketCalls, Sockets, open_listening_sockets, open_loop, open_one,
  close_listening_sockets, epoll_init,
}
use net_server.Listening.Opening.{Opened, fds, open_listening_sockets-Opened, open-close}
use net_server.Listening.Handing.{Listens}
use net_server.Listening.Watching.{epoll_init-Listens}
use net_server.Examples.Data.{busy_server, fresh_conn, zeros, ping_pkg}
use net_server.Examples.Pooling.{small_pool, small_pool-IsConsistent}
use net_server.Pool.Handing.{IsConsistent-conns}

-- Port 80 opens, for port 443 bind fails.
abbrev ports : List ℕ → ℕ → ℕ
ports name default = if get_or name 0 0 == b'0' then 80 else 443

abbrev name_of : ℕ → List ℕ
name_of i = (48 + i) ∷ []

abbrev calls : ℕ → SocketCalls
calls i = record {
  socket = some (3 + i);
  reusable = true;
  nonblocking = true;
  bound = i == 0;
  listens = true;
}

abbrev nothing_open : Sockets
nothing_open = record { listen_sockets = []; closed = [] }

open_listening_sockets-Opened_example :
    Opened
      (80 ∷ 443 ∷ [])
      (3 ∷ 4 ∷ [])
      nothing_open
      (open_listening_sockets ports name_of calls 2 nothing_open)
open_listening_sockets-Opened_example =
    open_listening_sockets-Opened ports name_of calls 2 nothing_open (omega arith)

open-close_example :
    close_listening_sockets 2 (open_listening_sockets ports name_of calls 2 nothing_open).1 ≡ none
unfolding open_listening_sockets open_loop open_one
open-close_example = open-close ports name_of calls 2 nothing_open (omega arith) refl

abbrev new_server : Server
new_server = record busy_server {
  pool = empty_pool;
  sends = record { msgs = []; count = 0; discard = 0; sem = 0 };
}

abbrev opened : List Listening
opened =
    record { port = 80; fd = 3; connection = none }
    ∷ record { port = 443; fd = 4; connection = none }
    ∷ []

epoll_init-Listens_example :
    (sockets : List Listening) × (s' : Server) × (epoll_init 100 true (λ j. true) opened new_server
      ≡ some (sockets, s'))
    × (fds sockets ≡ 3 ∷ 4 ∷ [])
    × IsServer s'
    × All (Listens s') sockets
epoll_init-Listens_example =
    epoll_init-Listens 100 (λ j. true) opened new_server (λ j. refl) refl
      (record { sorted = tt; size = refl; small = omega arith; head = tt })
      (record { counted = refl; bounded = omega arith })

-- Connection 0 is the listening socket's, connection 1 a client's.
abbrev pub serving : Worker
serving = record {
  server = record busy_server {
    pool = record small_pool {
      conns = λ a.
          if a == 0
          then record fresh_conn { fd = some 3; rhandler = some event_accept }
          else record fresh_conn {
            fd = some 7;
            rhandler = some read_request;
            whandler = some write_request;
          };
    };
  };
  use_accept4 = true;
  holds = false;
}

pub serving-IsServer : IsServer serving.server
serving-IsServer = record {
  books = IsConsistent-conns small_pool serving.server.pool refl small_pool-IsConsistent;
  timers = record { sorted = tt; size = refl; small = omega arith; head = tt };
  sends = record { counted = refl; bounded = omega arith };
}

abbrev event_for : ℕ → ℕ → Event
event_for a revents = record {
  conn = a;
  revents = revents;
  now = 100;
  ms = 100000;
  status = acquired;
  net = λ again. accepted 9;
  nonblocking = true;
  added = true;
  incoming = received ping_pkg;
  outcome = buffer_full;
}

-- A new client comes, and a client sends a heartbeat and then breaks the connection.
process_events-Fine_example :
    let es = event_for 0 epollin ∷ event_for 1 epollin ∷ event_for 1 epollhup ∷ [] in
    FineResult 3 serving (process_events zeros es serving)
process_events-Fine_example =
    process_events-Fine zeros
      (event_for 0 epollin ∷ event_for 1 epollin ∷ event_for 1 epollhup ∷ []) serving
      serving-IsServer
      (
        (inl (refl, refl, refl), inl (refl, refl)),
        (
          (inl (refl, refl, refl), inr (refl, refl)),
          ((inl (refl, refl, refl), inr (refl, refl)), tt),
        ),
      )
      (omega arith)
