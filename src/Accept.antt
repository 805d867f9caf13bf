-- ===== src/Accept.antt =====
-- CSocekt::ngx_event_accept of net/ngx_c_socket_accept.cxx, which a worker process calls when a
-- listening socket has a connection for it.
-- The mutex that the processes share, accept4, accept, ioctl and epoll_ctl are not the program's:
-- their results are arguments. AllocMemory never returns NULL, so neither does ngx_get_connection.
-- The counts of the settings are read as numbers with no sign.
pub mod Refusal
pub mod Admission
pub mod Outcome
use Prim.Native.Nat.{bit_or}
use net_server.Base.{
  ℕ, ◌*◌, ◌^◌, Bool, true, false, Option, none, some, List, [], ◌∷◌, ◌&&◌, not, length, ltb, leb,
  ◌==◌, if◌then◌else◌,
}
use net_server.Base.Words.{inc32}
use net_server.Types.{Conn, Handler, read_request, write_request}
use net_server.Pool.{Pool, get_connection}
use net_server.Timer.{add_to_timer_queue}
use net_server.Server.{Server, conn_at, set_conn, close_connection}
use net_server.Epoll.{oper_event, ctl_add, epollin, epollrdhup}

-- The results of pthread_mutex_trylock.
pub data LockStatus : Type 0 where
  acquired owner_dead not_recoverable busy other_status : LockStatus

-- The results of accept4 and accept: a descriptor, or -1 with an errno.
pub data AcceptResult : Type 0 where
  accepted : ℕ → AcceptResult
  no_connection not_implemented failed : AcceptResult

-- A worker process: what its sockets share, the static variable of ngx_event_accept, and whether it
-- holds the mutex of the processes.
pub record Worker : Type 0 where
  pub server : Server
  pub use_accept4 : Bool
  pub holds : Bool

abbrev pub unlock : Worker → Worker
unlock w = record w { holds = false }

-- `close(s)` for a descriptor that no connection has.
abbrev pub refuse : ℕ → Server → Server
refuse fd s = record s { closed = fd ∷ s.closed }

-- `x >= k` for a value of type `int`.
abbrev pub at_least32 : ℕ → ℕ → Bool
at_least32 x k = if ltb x (2 ^ 31) then leb k x else false

-- The loop up to a result that is no reason to go on: what was accepted, and the new `use_accept4`.
-- `net` gives the result of accept4 (true) and of accept (false).
unfoldable pub try_accept : Bool → (Bool → AcceptResult) → Option ℕ × Bool
try_accept use4 net = elim (net use4) [
  | accepted fd ↦ (some fd, use4)
  | no_connection ↦ (none, use4)
  | failed ↦ (none, use4)
  | not_implemented ↦ elim use4 [
    | false ↦ (none, false)
    | true ↦ elim (net false) [ accepted fd ↦ (some fd, false) | _ ↦ (none, false) ]
  ]
]

-- The end: the timer, and the count of users.
unfoldable pub enroll : ℕ → ℕ → Server → Server
enroll now a s =
    let s' : Server =
      (if s.cfg.kick_time_enable == 1
        then record s {
          timers =
              add_to_timer_queue s.cfg now
                (record { conn = a; curr_sequence = (conn_at s a).curr_sequence }) s.timers;
        }
        else s) in
    record s' { pool = record s'.pool { online_n = inc32 s'.pool.online_n } }

-- The handlers of a new connection, and its place in epoll.
abbrev pub watch : Conn → Conn
watch c =
    oper_event ctl_add (bit_or epollin epollrdhup) 0
      (record c { rhandler = some read_request; whandler = some write_request })

-- From ngx_get_connection on. `nonblocking` and `added` say whether ioctl and epoll_ctl succeed.
unfoldable pub take_in : ℕ → Bool → Bool → ℕ → Worker → Worker
take_in now nonblocking added fd w =
    let (a, p) = get_connection fd now w.server.pool in
    let s : Server = record w.server { pool = p } in
    if not w.use_accept4 && not nonblocking
    then unlock (record w { server = close_connection a s })
    else if added
    then (let w' : Worker = unlock (record w { server = set_conn a watch s }) in
        record w' { server = enroll now a w'.server })
    else unlock (record w { server = close_connection a (set_conn a watch s) })

-- From the limits on.
unfoldable pub admit : ℕ → Bool → Bool → ℕ → Worker → Worker
admit now nonblocking added fd w =
    let s = w.server in
    if at_least32 s.pool.online_n s.cfg.worker_connections
    then unlock (record w { server = refuse fd s })
    else if ltb (s.cfg.worker_connections * 5) (length s.pool.connection_list)
        && ltb (length s.pool.free_list) s.cfg.worker_connections
    then unlock (record w { server = refuse fd s })
    else take_in now nonblocking added fd w

-- What is done with the mutex held.
unfoldable pub accept_one : ℕ → (Bool → AcceptResult) → Bool → Bool → Worker → Worker
accept_one now net nonblocking added w =
    let r = try_accept w.use_accept4 net in
    let w' : Worker = record w { use_accept4 = r.1 } in
    elim r.0 [ none ↦ unlock w' | some fd ↦ admit now nonblocking added fd w' ]

-- ngx_event_accept
unfoldable pub event_accept : ℕ → LockStatus → (Bool → AcceptResult) → Bool → Bool → Worker → Worker
event_accept now acquired net nonblocking added w =
    accept_one now net nonblocking added (record w { holds = true })
event_accept now owner_dead net nonblocking added w = unlock (record w { holds = true })
event_accept now not_recoverable net nonblocking added w = w
event_accept now busy net nonblocking added w = w
event_accept now other_status net nonblocking added w = w
