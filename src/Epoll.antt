-- ===== src/Epoll.antt =====
-- The epoll interface of CSocekt in net/ngx_c_socket.cxx: the event mask of a connection.
use Prim.Native.Nat.{bit_and, bit_or, bit_xor}
use net_server.Base.{ℕ, ◌-◌, ◌^◌, Bool, not, ◌==◌, if◌then◌else◌}
use net_server.Types.{Conn}

-- The masks of <sys/epoll.h>.
abbrev pub epollin : ℕ
epollin = 1

abbrev pub epollout : ℕ
epollout = 4

abbrev pub epollerr : ℕ
epollerr = 8

abbrev pub epollhup : ℕ
epollhup = 16

abbrev pub epollrdhup : ℕ
epollrdhup = 0x2000

-- EPOLL_CTL_ADD, EPOLL_CTL_MOD and EPOLL_CTL_DEL.
pub data Ctl : Type 0 where
  ctl_add ctl_mod ctl_del : Ctl

-- `~flag` of a uint32_t.
abbrev not32 : ℕ → ℕ
not32 flag = bit_xor flag (2 ^ 32 - 1)

-- ngx_epoll_oper_event: the mask that is recorded in the connection and passed to epoll_ctl. Its
-- result -1 changes no state, so the call itself is left out.
unfoldable pub oper_event : Ctl → ℕ → ℕ → Conn → Conn
oper_event ctl_add flag bcaction c = record c { events = flag }
oper_event ctl_mod flag bcaction c = record c {
  events =
      if bcaction == 0
      then bit_or c.events flag
      else if bcaction == 1
      then bit_and c.events (not32 flag)
      else flag;
}
oper_event ctl_del flag bcaction c = c

-- `mask & flag` as a condition.
abbrev pub has : ℕ → ℕ → Bool
has mask flag = not (bit_and mask flag == 0)
