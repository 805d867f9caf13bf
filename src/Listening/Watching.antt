-- ===== src/Listening/Watching.antt =====
-- ngx_epoll_init: what a worker process starts with.
use net_server.Base.{
  ℕ, ◌+◌, ◌≡◌, refl, sym, ap, subst, ◌∙◌, Bool, true, Option, some, List, [], ◌∷◌, All,
}
use net_server.Pool.{empty_pool, init_connection, get_connection}
use net_server.Pool.Invariant.{IsConsistent, init_connection-IsConsistent}
use net_server.Timer.Order.{IsTimerQueue}
use net_server.Server.{Server}
use net_server.Server.Queueing.{IsSendQueue}
use net_server.EventLoop.Fine.{IsServer}
use net_server.Listening.{Listening, add_listening, add_all, epoll_init}
use net_server.Listening.Opening.{fds}
use net_server.Listening.Handing.{
  Listens, Kept, Listens-Kept, listening, listening-IsServer, listening-Kept, listening-Listens,
}

module _ (now : ℕ) where
  Kept-trans : (s t u : Server) → Kept s t → Kept t u → Kept s u
  Kept-trans s t u h k = record {
    kept = λ b x. let (y, e) = h.kept b x in let (z, e') = k.kept b y in (z, e' ∙ e);
  }

  -- The result for the sockets `ls`.
  record Started (ls : List Listening) (s : Server) (o : Option (List Listening × Server))
      : Type 0 where
    sockets : List Listening
    server : Server
    runs : o ≡ some (sockets, server)
    same_fds : fds sockets ≡ fds ls
    right : IsServer server
    kept : Kept s server
    all_listen : All (Listens server) sockets

  add_all-Started :
      (added : ℕ → Bool) (i : ℕ) (ls : List Listening) (s : Server)
      → ((j : ℕ) → added j ≡ true)
      → IsServer s
      → Started ls s (add_all now added i ls s)
  unfolding add_all add_listening
  add_all-Started added i [] s yes_added ok = record {
    sockets = [];
    server = s;
    runs = refl;
    same_fds = refl;
    right = ok;
    kept = record { kept = λ b u. (u, refl) };
    all_listen = tt;
  }
  add_all-Started added i (l ∷ ls) s yes_added ok =
      let t = listening now l s in
      let l' : Listening = record l { connection = some (get_connection l.fd now s.pool).0 } in
      let rest = add_all-Started added (i + 1) ls t yes_added (listening-IsServer now l s ok) in
      record {
        sockets = l' ∷ rest.sockets;
        server = rest.server;
        runs = rw (yes_added i, rest.runs) refl;
        same_fds = ap (◌∷◌ l.fd) rest.same_fds;
        right = rest.right;
        kept = Kept-trans s t rest.server (listening-Kept now l s ok) rest.kept;
        all_listen = (
          Listens-Kept t rest.server l' rest.kept (listening-Listens now l s ok),
          rest.all_listen,
        );
      }

  -- The server with the first connections.
  abbrev filled : Server → Server
  filled s = record s { pool = init_connection now s.cfg.worker_connections s.pool }

  epoll_init-Started :
      (added : ℕ → Bool) (ls : List Listening) (s : Server)
      → ((j : ℕ) → added j ≡ true)
      → s.pool ≡ empty_pool
      → IsTimerQueue s.timers
      → IsSendQueue s.sends
      → Started ls (filled s) (epoll_init now true added ls s)
  unfolding epoll_init
  epoll_init-Started added ls s yes_added empty timers sends =
      let books =
        subst (λ q. IsConsistent (init_connection now s.cfg.worker_connections q)) (sym empty)
          (init_connection-IsConsistent now s.cfg.worker_connections).0 in
      add_all-Started added 0 ls (filled s) yes_added
        (record { books = books; timers = timers; sends = sends })

  -- ngx_epoll_init, in a server without connections, gives every listening socket a connection
  -- that is in use, has the socket's descriptor, accepts when epoll reports it, and is
  -- watched for EPOLLIN and EPOLLRDHUP. The pool's books, the timers and the queue of messages to
  -- send are right, as the event loop needs it. epoll_create and epoll_ctl succeed.
  pub epoll_init-Listens :
      (added : ℕ → Bool) (ls : List Listening) (s : Server)
      → ((j : ℕ) → added j ≡ true)
      → s.pool ≡ empty_pool
      → IsTimerQueue s.timers
      → IsSendQueue s.sends
      → (sockets : List Listening) × (s' : Server) × (epoll_init now true added ls s
          ≡ some (sockets, s'))
        × (fds sockets ≡ fds ls)
        × IsServer s'
        × All (Listens s') sockets
  epoll_init-Listens added ls s yes_added empty timers sends =
      let r = epoll_init-Started added ls s yes_added empty timers sends in
      (r.sockets, r.server, r.runs, r.same_fds, r.right, r.all_listen)
