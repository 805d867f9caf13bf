-- ===== src/Listening/Handing.antt =====
-- Handing out a connection to a listening socket.
use Prim.Native.Nat.{bit_or}
use net_server.Base.{ℕ, ◌≡◌, ◌≢◌, refl, ap, subst, ◌∙◌, some, arith}
use net_server.Types.{Conn, event_accept}
use net_server.Epoll.{oper_event, epollin, epollrdhup}
use net_server.Pool.{get_connection}
use net_server.Pool.Invariant.{InUse, get_connection-IsConsistent, get_connection-InUse}
use net_server.Pool.Handing.{IsConsistent-conns, get_connection-Handed}
use net_server.Server.{Server, conn_at, set_conn}
use net_server.EventLoop.Fine.{IsServer}
use net_server.Listening.{Listening, listen_with}

-- The listening socket has a connection, which accepts when epoll reports it.
pub record Listens (s : Server) (l : Listening) : Type 0 where
  pub a : ℕ
  pub connected : l.connection ≡ some a
  pub in_use : InUse s.pool a
  pub accepts : (conn_at s a).rhandler ≡ some event_accept
  pub at_fd : (conn_at s a).fd ≡ some l.fd
  pub mask : (conn_at s a).events ≡ bit_or epollin epollrdhup

-- Another connection is handed out.
pub record Kept (s s' : Server) : Type 0 where
  pub kept : (b : ℕ) → InUse s.pool b → InUse s'.pool b × (conn_at s' b ≡ conn_at s b)

pub Listens-Kept : (s s' : Server) (l : Listening) → Kept s s' → Listens s l → Listens s' l
Listens-Kept s s' l k h =
    let (u, e) = k.kept h.a h.in_use in
    record {
      a = h.a;
      connected = h.connected;
      in_use = u;
      accepts = ap (λ (c : Conn). c.rhandler) e ∙ h.accepts;
      at_fd = ap (λ (c : Conn). c.fd) e ∙ h.at_fd;
      mask = ap (λ (c : Conn). c.events) e ∙ h.mask;
    }

listen_with-fields :
    (c : Conn)
    → ((listen_with c).rhandler ≡ some event_accept)
      × ((listen_with c).fd ≡ c.fd)
      × ((listen_with c).events ≡ bit_or epollin epollrdhup)
unfolding oper_event
listen_with-fields c = (refl, refl, refl)

set_conn_self :
    (a : ℕ) (s : Server) → conn_at (set_conn a listen_with s) a ≡ listen_with (conn_at s a)
set_conn_self a s = ground arith

set_conn-other : (a b : ℕ) (s : Server) → b ≢ a → conn_at (set_conn a listen_with s) b ≡ conn_at s b
set_conn-other a b s ne = ground arith

module _ (now : ℕ) where
  -- The server with the connection of one more listening socket.
  abbrev pub listening : Listening → Server → Server
  listening l s =
      let r = get_connection l.fd now s.pool in set_conn r.0 listen_with (record s { pool = r.1 })

  pub listening-IsServer : (l : Listening) (s : Server) → IsServer s → IsServer (listening l s)
  listening-IsServer l s ok = record {
    books =
        IsConsistent-conns (get_connection l.fd now s.pool).1 (listening l s).pool refl
          (get_connection-IsConsistent l.fd now s.pool ok.books);
    timers = ok.timers;
    sends = ok.sends;
  }

  pub listening-Kept : (l : Listening) (s : Server) → IsServer s → Kept s (listening l s)
  listening-Kept l s ok =
      let r = get_connection l.fd now s.pool in
      let g = get_connection-InUse l.fd now s.pool ok.books in
      let h = get_connection-Handed l.fd now s.pool in
      record {
        kept = λ b u.
            let ne : b ≢ r.0 = λ e. g.1 (subst (InUse s.pool) e u) in
            (g.2 b u, set_conn-other r.0 b (record s { pool = r.1 }) ne ∙ h.others b ne);
      }

  pub listening-Listens :
      (l : Listening) (s : Server)
      → IsServer s
      → Listens (listening l s) (record l { connection = some (get_connection l.fd now s.pool).0 })
  listening-Listens l s ok =
      let r = get_connection l.fd now s.pool in
      let g = get_connection-InUse l.fd now s.pool ok.books in
      let h = get_connection-Handed l.fd now s.pool in
      let t : Server = record s { pool = r.1 } in
      let at = set_conn_self r.0 t in
      let f = listen_with-fields (r.1.conns r.0) in
      record {
        a = r.0;
        connected = refl;
        in_use = g.0;
        accepts = ap (λ (c : Conn). c.rhandler) at ∙ f.0;
        at_fd = ap (λ (c : Conn). c.fd) at ∙ f.1 ∙ h.fresh.fd;
        mask = ap (λ (c : Conn). c.events) at ∙ f.2;
      }
