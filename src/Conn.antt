-- ===== src/Conn.antt =====
-- ngx_connection_s in net/ngx_c_socket_conn.cxx: what happens to the object when it leaves the pool
-- and when it comes back.
use net_server.Base.{ℕ, none}
use net_server.Base.Words.{inc64}
use net_server.Types.{Conn, hd_init, in_head, len_pkg_header}

-- GetOneToUse at the time `now`. What the buffers held is forgotten, not released.
abbrev pub get_one_to_use : ℕ → Conn → Conn
get_one_to_use now c = record c {
  curr_sequence = inc64 c.curr_sequence;
  fd = none;
  cur_stat = hd_init;
  recv_buf = in_head 0;
  recv_len = len_pkg_header;
  recv_mem = none;
  throw_send_count = 0;
  send_mem = none;
  events = 0;
  last_ping_time = now;
  flood_kick_last_time = 0;
  flood_attack_count = 0;
  send_count = 0;
}

-- PutOneToFree. Both buffers are released if there are any.
abbrev pub put_one_to_free : Conn → Conn
put_one_to_free c = record c {
  curr_sequence = inc64 c.curr_sequence;
  recv_mem = none;
  send_mem = none;
  throw_send_count = 0;
}
