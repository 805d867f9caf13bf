-- ===== src/Types.antt =====
-- _include/ngx_comm.h and _include/ngx_c_socket.h: the package and message headers, the connection
-- object, and the configuration that CSocekt::ReadConf fills.
-- A byte is a number below 256; a `time_t` is a number of seconds. An object allocated with `new` is
-- named by a number, its address. A file descriptor of -1 is `none`.
use net_server.Base.{ℕ, ◌+◌, ◌*◌, ◌%◌, ◌^◌, ◌/◌, Option, none, List, [], ◌∷◌, get_or, replicate}

-- sizeof(COMM_PKG_HEADER), which is packed: 2 + 2 + 4.
abbrev pub len_pkg_header : ℕ
len_pkg_header = 8

-- sizeof(STRUC_MSG_HEADER): a pointer and a uint64_t.
abbrev pub len_msg_header : ℕ
len_msg_header = 16

-- _PKG_MAX_LENGTH
abbrev pub pkg_max_length : ℕ
pkg_max_length = 30000

-- _DATA_BUFSIZE_
abbrev pub data_bufsize : ℕ
data_bufsize = 20

-- The values of `curStat`.
pub data RecvState : Type 0 where
  hd_init hd_recving bd_init bd_recving : RecvState

-- STRUC_MSG_HEADER: the connection and its sequence number when the message came.
pub record MsgHeader : Type 0 where
  pub conn : ℕ
  pub curr_sequence : ℕ

-- A message buffer: the message header, then the package header and the package body as bytes.
pub record Msg : Type 0 where
  pub msg_header : MsgHeader
  pub pkg : List ℕ

-- Where `precvbuf` points: into `dataHeadInfo`, or into the buffer of `precvMemPointer`, counted
-- from the package header.
pub data RecvPtr : Type 0 where
  in_head in_mem : ℕ → RecvPtr

-- `rhandler` and `whandler`, the member functions that an event calls.
pub data Handler : Type 0 where
  event_accept read_request write_request : Handler

-- ngx_connection_s. The addresses of the peer and of the listening socket carry no behaviour.
pub record Conn : Type 0 where
  pub fd : Option ℕ
  pub curr_sequence : ℕ
  pub rhandler : Option Handler
  pub whandler : Option Handler
  pub events : ℕ
  pub cur_stat : RecvState
  pub data_head_info : List ℕ
  pub recv_buf : RecvPtr
  pub recv_len : ℕ
  pub recv_mem : Option Msg
  pub throw_send_count : ℕ
  pub send_mem : Option Msg
  pub send_buf : ℕ
  pub send_len : ℕ
  pub in_recy_time : ℕ
  pub last_ping_time : ℕ
  pub flood_kick_last_time : ℕ
  pub flood_attack_count : ℕ
  pub send_count : ℕ

-- The settings of CSocekt that its handlers read.
pub record Config : Type 0 where
  pub worker_connections : ℕ
  pub recy_wait_time : ℕ
  pub kick_time_enable : ℕ
  pub wait_time : ℕ
  pub timeout_kick : ℕ
  pub flood_enable : ℕ
  pub flood_time_interval : ℕ
  pub flood_kick_count : ℕ

-- ntohs of the two bytes at an offset, and ntohl of the four: the wire is big-endian.
abbrev pub be16 : List ℕ → ℕ → ℕ
be16 bs i = get_or bs i 0 * 256 + get_or bs (i + 1) 0

abbrev pub be32 : List ℕ → ℕ → ℕ
be32 bs i = be16 bs i * 2 ^ 16 + be16 bs (i + 2)

-- htons and htonl, as the bytes that they leave in memory.
abbrev pub to_be16 : ℕ → List ℕ
to_be16 n = (n / 256 % 256) ∷ (n % 256) ∷ []

abbrev pub to_be32 : ℕ → List ℕ
to_be32 n = (n / 2 ^ 24 % 256) ∷ (n / 2 ^ 16 % 256) ∷ (n / 256 % 256) ∷ (n % 256) ∷ []

-- pkgLen of a package header
abbrev pub pkg_len : List ℕ → ℕ
pkg_len pkg = be16 pkg 0

-- The memory that AllocMemory(size, true) hands out holds zeros; the constructor keeps them but for
-- the sequence number, which is 0 too.
abbrev pub zero_conn : Conn
zero_conn = record {
  fd = Option.some 0;
  curr_sequence = 0;
  rhandler = none;
  whandler = none;
  events = 0;
  cur_stat = RecvState.hd_init;
  data_head_info = replicate data_bufsize 0;
  recv_buf = in_head 0;
  recv_len = 0;
  recv_mem = none;
  throw_send_count = 0;
  send_mem = none;
  send_buf = 0;
  send_len = 0;
  in_recy_time = 0;
  last_ping_time = 0;
  flood_kick_last_time = 0;
  flood_attack_count = 0;
  send_count = 0;
}
