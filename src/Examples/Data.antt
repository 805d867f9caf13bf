-- ===== src/Examples/Data.antt =====
-- The inputs that the examples share: settings, connections, messages and a small server.
use net_server.Base.{ℕ, List, [], ◌∷◌, some, replicate}
use net_server.Types.{Conn, Config, Msg, zero_conn}
use net_server.Conn.{get_one_to_use}
use net_server.Pool.{empty_pool}
use net_server.Recv.{RecvQueue}
use net_server.Timer.{TimerQueue}
use net_server.Server.{Server}

abbrev pub zeros : ℕ → List ℕ
zeros n = replicate n 0

abbrev pub settings : Config
settings = record {
  worker_connections = 4;
  recy_wait_time = 60;
  kick_time_enable = 1;
  wait_time = 20;
  timeout_kick = 0;
  flood_enable = 0;
  flood_time_interval = 100;
  flood_kick_count = 10;
}

-- A connection as ngx_get_connection hands it out.
abbrev pub fresh_conn : Conn
fresh_conn = get_one_to_use 5 zero_conn

abbrev pub empty_recvs : RecvQueue
empty_recvs = record { msgs = []; count = 0 }

-- A heartbeat, and a package with a body of two bytes.
abbrev pub ping_pkg : List ℕ
ping_pkg = 0 ∷ 8 ∷ 0 ∷ 0 ∷ 0 ∷ 0 ∷ 0 ∷ 0 ∷ []

abbrev pub small_pkg : List ℕ
small_pkg = 0 ∷ 10 ∷ 0 ∷ 5 ∷ 0 ∷ 0 ∷ 0 ∷ 1 ∷ 7 ∷ 9 ∷ []

abbrev pub msg_for : ℕ → ℕ → List ℕ → Msg
msg_for a seq p = record { msg_header = record { conn = a; curr_sequence = seq }; pkg = p }

abbrev pub no_timers : TimerQueue
no_timers = record { queue_map = []; cur_size = 0; timer_value = 0 }

-- Connections 0 and 1 are in use; for connection 0 two messages are queued, one for connection 1.
abbrev pub busy_server : Server
busy_server = record {
  cfg = settings;
  pool = record empty_pool {
    conns = λ a. record fresh_conn { fd = some 7; send_count = 2 };
    next = 2;
    connection_list = 0 ∷ 1 ∷ [];
    total_n = 2;
    online_n = 2;
  };
  timers = no_timers;
  sends = record {
    msgs = msg_for 0 1 ping_pkg ∷ msg_for 1 1 ping_pkg ∷ msg_for 0 1 small_pkg ∷ [];
    count = 3;
    discard = 0;
    sem = 3;
  };
  recvs = empty_recvs;
  closed = [];
  sent = λ a. [];
}
