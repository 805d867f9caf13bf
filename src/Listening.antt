-- ===== src/Listening.antt =====
-- The listening sockets of net/ngx_c_socket.cxx: ngx_open_listening_sockets, which the master process
-- calls before it starts the workers, ngx_close_listening_sockets, and ngx_epoll_init, with which a
-- worker process starts to listen. What the system calls return is an argument, and so are
-- GetIntDefault and the text that sprintf makes of "ListenPort%d".
pub mod Opening
pub mod Handing
pub mod Watching
use Prim.Native.Nat.{bit_or}
use net_server.Base.{
  ℕ, zero, suc, ◌+◌, Bool, true, false, Option, none, some, ◌>>=◌, List, [], ◌∷◌, ◌++◌, length,
  ◌==◌, if◌then◌else◌,
}
use net_server.Types.{Conn, event_accept}
use net_server.Pool.{get_connection, init_connection}
use net_server.Server.{Server, set_conn}
use net_server.Epoll.{oper_event, ctl_add, epollin, epollrdhup}

-- ngx_listening_s
pub record Listening : Type 0 where
  pub port : ℕ
  pub fd : ℕ
  pub connection : Option ℕ

-- What socket() returns for one port, and whether setsockopt, ioctl, bind and listen succeed.
pub record SocketCalls : Type 0 where
  pub socket : Option ℕ
  pub reusable : Bool
  pub nonblocking : Bool
  pub bound : Bool
  pub listens : Bool

-- m_ListenSocketList, and the descriptors passed to close(), the latest last.
pub record Sockets : Type 0 where
  pub listen_sockets : List Listening
  pub closed : List ℕ

abbrev close_socket : ℕ → Sockets → Sockets
close_socket fd s = record s { closed = s.closed ++ fd ∷ [] }

-- The calls for a descriptor, up to the first that fails.
abbrev all_succeed : SocketCalls → Bool
all_succeed c =
    if c.reusable
    then (if c.nonblocking then (if c.bound then c.listens else false) else false)
    else false

-- One turn of the loop: whether it goes on, and the sockets.
unfoldable pub open_one : SocketCalls → ℕ → Sockets → Bool × Sockets
open_one c port s = elim c.socket [
  | none ↦ (false, s)
  | some isock ↦
      if all_succeed c
      then (
        true,
        record s {
          listen_sockets =
              s.listen_sockets ++ record { port = port; fd = isock; connection = none } ∷ [];
        },
      )
      else (false, close_socket isock s)
]

module _ (get_int_default : List ℕ → ℕ → ℕ) (listen_port : ℕ → List ℕ)
    (calls : ℕ → SocketCalls) where
  -- The port with the number `i`.
  abbrev pub port_of : ℕ → ℕ
  port_of i = get_int_default (listen_port i) 10000

  -- The loop, with `n` turns left.
  unfoldable pub open_loop : ℕ → ℕ → Sockets → Bool × Sockets
  open_loop zero i s = (true, s)
  open_loop (suc n) i s =
      let r = open_one (calls i) (port_of i) s in
      let rest = open_loop n (i + 1) r.1 in if r.0 then rest else r

  -- ngx_open_listening_sockets for m_ListenPortCount ports.
  unfoldable pub open_listening_sockets : ℕ → Sockets → Bool × Sockets
  open_listening_sockets count s =
      let r = open_loop count 0 s in
      if r.0 then (if length r.1.listen_sockets == 0 then (false, r.1) else r) else r

-- `m_ListenSocketList[i]`
abbrev pub listening_at : List Listening → ℕ → Option Listening
listening_at [] i = none
listening_at (l ∷ ls) zero = some l
listening_at (l ∷ ls) (suc i) = listening_at ls i

-- ngx_close_listening_sockets, with `n` turns left. An index behind the end has no result.
unfoldable pub close_loop : ℕ → ℕ → Sockets → Option Sockets
close_loop zero i s = some s
close_loop (suc n) i s =
    listening_at s.listen_sockets i >>= λ l. close_loop n (i + 1) (close_socket l.fd s)

unfoldable pub close_listening_sockets : ℕ → Sockets → Option Sockets
close_listening_sockets count s = close_loop count 0 s

-- The handler of a listening socket, and its place in epoll.
abbrev pub listen_with : Conn → Conn
listen_with c =
    oper_event ctl_add (bit_or epollin epollrdhup) 0 (record c { rhandler = some event_accept })

-- One listening socket in ngx_epoll_init. `added` says whether epoll_ctl succeeds; otherwise the
-- process exits, which has no result.
unfoldable pub add_listening : ℕ → Bool → Listening → Server → Option (Listening × Server)
add_listening now added l s =
    let r = get_connection l.fd now s.pool in
    if added
    then some
        (record l { connection = some r.0 }, set_conn r.0 listen_with (record s { pool = r.1 }))
    else none

unfoldable pub add_all :
    ℕ → (ℕ → Bool) → ℕ → List Listening → Server → Option (List Listening × Server)
add_all now added i [] s = some ([], s)
add_all now added i (l ∷ ls) s = add_listening now (added i) l s >>= λ one.
    (add_all now added (i + 1) ls one.1 >>= λ rest. some (one.0 ∷ rest.0, rest.1))

-- ngx_epoll_init. `created` says whether epoll_create succeeds.
unfoldable pub epoll_init :
    ℕ → Bool → (ℕ → Bool) → List Listening → Server → Option (List Listening × Server)
epoll_init now created added ls s =
    if created
    then add_all now added 0 ls
        (record s { pool = init_connection now s.cfg.worker_connections s.pool })
    else none
