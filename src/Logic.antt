-- ===== src/Logic.antt =====
-- CLogicSocket of logic/ngx_c_slogic.cxx with the commands of _include/ngx_logiccomm.h.
-- What a handler writes into the received package is left out: the package is released when it
-- returns. The clock is read in seconds. `pkglen - m_iLenPkgHeader` is not negative for a message of
-- the queue, since proc_p1 throws shorter packages away.
pub mod Replies
pub mod Checks
pub mod Answers
use net_server.Base.{
  ℕ, ◌+◌, ◌-◌, ◌*◌, Bool, true, false, Option, none, some, List, ◌++◌, length, take, drop, ltb,
  ◌==◌, if◌then◌else◌,
}
use net_server.Types.{
  Conn, Config, Msg, MsgHeader, len_pkg_header, pkg_len, be16, be32, to_be16, to_be32,
}
use net_server.Crc.{get_crc}
use net_server.Server.{Server, conn_at, set_conn, zd_close_socket_proc, msg_send}

-- _CMD_PING, _CMD_REGISTER and _CMD_LOGIN.
abbrev pub cmd_ping : ℕ
cmd_ping = 0

abbrev pub cmd_register : ℕ
cmd_register = 5

abbrev pub cmd_log_in : ℕ
cmd_log_in = 6

-- sizeof(STRUCT_REGISTER) and sizeof(STRUCT_LOGIN), which are packed.
abbrev pub len_struct_register : ℕ
len_struct_register = 100

abbrev pub len_struct_log_in : ℕ
len_struct_log_in = 96

-- msgCode and crc32 of a package.
abbrev pub msg_code : List ℕ → ℕ
msg_code pkg = be16 pkg 2

abbrev pub crc_field : List ℕ → ℕ
crc_field pkg = be32 pkg 4

-- The package header, in network order.
abbrev pub pkg_header : ℕ → ℕ → ℕ → List ℕ
pkg_header len code crc = to_be16 len ++ (to_be16 code ++ to_be32 crc)

-- SendNoBodyPkgToClient
unfoldable pub send_no_body_pkg_to_client : ℕ → MsgHeader → ℕ → Server → Server
send_no_body_pkg_to_client now h code s =
    msg_send now (record { msg_header = h; pkg = pkg_header len_pkg_header code 0 }) s

-- A reply with a body of `len` bytes. The body is what AllocMemory(…, false) returned: no handler
-- fills it.
abbrev pub reply_body : (ℕ → List ℕ) → ℕ → List ℕ
reply_body alloc len = drop len_pkg_header (alloc (len_pkg_header + len))

unfoldable pub reply : (ℕ → List ℕ) → MsgHeader → ℕ → ℕ → Msg
unfolding get_crc
reply alloc h code len = record {
  msg_header = h;
  pkg =
      pkg_header (len_pkg_header + len) code (get_crc (reply_body alloc len))
      ++ reply_body alloc len;
}

-- _HandleRegister; `body` is none for NULL.
unfoldable pub handle_register :
    (ℕ → List ℕ) → ℕ → MsgHeader → Option (List ℕ) → ℕ → Server → Bool × Server
unfolding reply
handle_register alloc now h none body_length s = (false, s)
handle_register alloc now h (some body) body_length s =
    if len_struct_register == body_length
    then (true, msg_send now (reply alloc h cmd_register len_struct_register) s)
    else (false, s)

-- _HandleLogIn
unfoldable pub handle_log_in :
    (ℕ → List ℕ) → ℕ → MsgHeader → Option (List ℕ) → ℕ → Server → Bool × Server
unfolding reply
handle_log_in alloc now h none body_length s = (false, s)
handle_log_in alloc now h (some body) body_length s =
    if len_struct_log_in == body_length
    then (true, msg_send now (reply alloc h cmd_log_in len_struct_log_in) s)
    else (false, s)

-- _HandlePing
unfoldable pub handle_ping : ℕ → MsgHeader → Option (List ℕ) → ℕ → Server → Bool × Server
unfolding send_no_body_pkg_to_client
handle_ping now h body body_length s =
    if body_length == 0
    then (
      true,
      send_no_body_pkg_to_client now h cmd_ping
          (set_conn h.conn (λ c. record c { last_ping_time = now }) s),
    )
    else (false, s)

-- The entries of statusHandler that are not NULL.
pub data Command : Type 0 where
  do_ping do_register do_log_in : Command

-- statusHandler, with AUTH_TOTAL_COMMANDS = 7 entries.
abbrev pub auth_total_commands : ℕ
auth_total_commands = 7

abbrev pub status_handler : ℕ → Option Command
status_handler code =
    if code == 0
    then some do_ping
    else if code == 5
    then some do_register
    else if code == 6
    then some do_log_in
    else none

abbrev pub handle :
    (ℕ → List ℕ) → ℕ → Command → MsgHeader → Option (List ℕ) → ℕ → Server → Bool × Server
handle alloc now do_ping h body n s = handle_ping now h body n s
handle alloc now do_register h body n s = handle_register alloc now h body n s
handle alloc now do_log_in h body n s = handle_log_in alloc now h body n s

-- The first part of threadRecvProcFunc: `none` if the CRC is wrong, else `pPkgBody`.
unfoldable pub check_crc : List ℕ → Option (Option (List ℕ))
unfolding get_crc
check_crc pkg =
    let body = take (pkg_len pkg - len_pkg_header) (drop len_pkg_header pkg) in
    if len_pkg_header == pkg_len pkg
    then (if crc_field pkg == 0 then some none else none)
    else (if get_crc body == crc_field pkg then some (some body) else none)

-- The rest of it: the message is not out of date, and its command has a handler.
unfoldable pub dispatch_command : (ℕ → List ℕ) → ℕ → Msg → Option (List ℕ) → Server → Server
dispatch_command alloc now m body s =
    let h = m.msg_header in
    let code = msg_code m.pkg in
    if (conn_at s h.conn).curr_sequence == h.curr_sequence
    then (if ltb code auth_total_commands
        then elim (status_handler code) [
          | none ↦ s
          | some command ↦ (handle alloc now command h body (pkg_len m.pkg - len_pkg_header) s).1
        ]
        else s)
    else s

-- CLogicSocket::threadRecvProcFunc
unfoldable pub thread_recv_proc_func : (ℕ → List ℕ) → ℕ → Msg → Server → Server
thread_recv_proc_func alloc now m s = elim (check_crc m.pkg) [
  | none ↦ s
  | some body ↦ dispatch_command alloc now m body s
]

-- CLogicSocket::procPingTimeOutChecking, when the clock shows `now`. The difference of two times may
-- be negative.
unfoldable pub proc_ping_time_out_checking : ℕ → MsgHeader → ℕ → Server → Server
proc_ping_time_out_checking now h cur_time s =
    let c = conn_at s h.conn in
    if h.curr_sequence == c.curr_sequence
    then (if s.cfg.timeout_kick == 1
        then zd_close_socket_proc h.conn now s
        else if ltb (c.last_ping_time + (s.cfg.wait_time * 3 + 10)) cur_time
        then zd_close_socket_proc h.conn now s
        else s)
    else s
