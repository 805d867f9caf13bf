-- ===== src/EventLoop.antt =====
-- ngx_epoll_process_events of net/ngx_c_socket.cxx, which ngx_process_events_and_timers of
-- proc/ngx_event.cxx calls in every round of a worker process.
pub mod Handlers
pub mod Steady
pub mod Accepting
pub mod Fine
pub mod Safety
use net_server.Base.{
  ℕ, ◌^◌, Bool, true, false, not, Option, none, some, ◌>>=◌, List, [], ◌∷◌, ◌==◌, if◌then◌else◌,
}
use net_server.Base.Words.{dec32}
use net_server.Types.{Handler, event_accept, read_request, write_request}
use net_server.Server.{conn_at, set_conn, RecvResult, read_request_handler}
use net_server.Sender.{SendOutcome, write_request_handler}
use net_server.Epoll.{has, epollin, epollout, epollerr, epollhup, epollrdhup}
use net_server.Accept.{Worker, LockStatus, AcceptResult}
use net_server.Accept as Accept

-- An entry of m_events, with what the system calls return while it is handled: the clock in seconds
-- and in milliseconds, the results for ngx_event_accept, that of recv, and that of sendproc.
pub record Event : Type 0 where
  pub conn : ℕ
  pub revents : ℕ
  pub now : ℕ
  pub ms : ℕ
  pub status : LockStatus
  pub net : Bool → AcceptResult
  pub nonblocking : Bool
  pub added : Bool
  pub incoming : RecvResult
  pub outcome : SendOutcome

-- What epoll_wait returns: -1 with EINTR, -1, 0, or events.
pub data WaitResult : Type 0 where
  interrupted failed timed_out : WaitResult
  ready : List Event → WaitResult

-- `revents & (EPOLLERR | EPOLLHUP | EPOLLRDHUP)`
abbrev pub is_broken : ℕ → Bool
is_broken revents =
    if has revents epollerr
    then true
    else if has revents epollhup
    then true
    else has revents epollrdhup

module _ (alloc : ℕ → List ℕ) where
  -- `(this->*handler)(p_Conn)`. A null pointer has no result.
  unfoldable pub call_handler : Option Handler → Event → Worker → Option Worker
  call_handler none e w = none
  call_handler (some event_accept) e w =
      some (Accept.event_accept e.now e.status e.net e.nonblocking e.added w)
  call_handler (some read_request) e w =
      some (record w { server = read_request_handler alloc e.conn e.now e.ms e.incoming w.server })
  call_handler (some write_request) e w =
      some (record w { server = write_request_handler e.conn e.outcome w.server })

  -- What the loop does for an event with EPOLLIN, and for one with EPOLLOUT.
  unfoldable pub readable : Event → Worker → Option Worker
  readable e w =
      if has e.revents epollin then call_handler (conn_at w.server e.conn).rhandler e w else some w

  unfoldable pub writable : Event → Worker → Option Worker
  writable e w =
      if has e.revents epollout
      then (if is_broken e.revents
          then some (record w {
            server =
                set_conn e.conn (λ c. record c { throw_send_count = dec32 c.throw_send_count })
                  w.server;
          })
          else call_handler (conn_at w.server e.conn).whandler e w)
      else some w

  unfoldable pub process_event : Event → Worker → Option Worker
  process_event e w = readable e w >>= writable e

  unfoldable pub process_events : List Event → Worker → Option Worker
  process_events [] w = some w
  process_events (e ∷ es) w = process_event e w >>= process_events es

  -- The result 1 or 0, and the worker process. `timer` is -1 for no time-out.
  unfoldable pub epoll_process_events : Option ℕ → WaitResult → Worker → Option (Bool × Worker)
  epoll_process_events timer interrupted w = some (true, w)
  epoll_process_events timer failed w = some (false, w)
  epoll_process_events none timed_out w = some (false, w)
  epoll_process_events (some t) timed_out w = some (true, w)
  epoll_process_events timer (ready es) w = process_events es w >>= λ w'. some (true, w')

  -- ngx_process_events_and_timers, which waits for as long as it takes and ignores the result.
  unfoldable pub process_events_and_timers : WaitResult → Worker → Option Worker
  process_events_and_timers r w = epoll_process_events none r w >>= λ out. some out.1
