-- ===== src/ReadConf.antt =====
-- CSocekt::ReadConf of net/ngx_c_socket.cxx. The number of listening ports is left out, which only the
-- listening sockets use. An int is its bit pattern below 2 ^ 32.
pub mod Bounds
use net_server.Base.{
  ℕ, ◌+◌, ◌-◌, ◌≤◌, ◌<◌, ◌^◌, ◌≡◌, refl, Bool, ◌&&◌, List, [], ◌∷◌, arith, ltb, if◌then◌else◌, inl,
  inr, Bool-cases,
}
use net_server.Types.{Config}

-- The names of the settings.
abbrev pub worker_connections : List ℕ
worker_connections =
    b'w' ∷ b'o' ∷ b'r' ∷ b'k' ∷ b'e' ∷ b'r' ∷ b'_' ∷ b'c' ∷ b'o' ∷ b'n' ∷ b'n' ∷ b'e' ∷ b'c' ∷ b't'
    ∷ b'i' ∷ b'o' ∷ b'n' ∷ b's' ∷ []

abbrev pub recy_connection_wait_time : List ℕ
recy_connection_wait_time =
    b'S' ∷ b'o' ∷ b'c' ∷ b'k' ∷ b'_' ∷ b'R' ∷ b'e' ∷ b'c' ∷ b'y' ∷ b'C' ∷ b'o' ∷ b'n' ∷ b'n' ∷ b'e'
    ∷ b'c' ∷ b't' ∷ b'i' ∷ b'o' ∷ b'n' ∷ b'W' ∷ b'a' ∷ b'i' ∷ b't' ∷ b'T' ∷ b'i' ∷ b'm' ∷ b'e' ∷ []

abbrev pub wait_time_enable : List ℕ
wait_time_enable =
    b'S' ∷ b'o' ∷ b'c' ∷ b'k' ∷ b'_' ∷ b'W' ∷ b'a' ∷ b'i' ∷ b't' ∷ b'T' ∷ b'i' ∷ b'm' ∷ b'e' ∷ b'E'
    ∷ b'n' ∷ b'a' ∷ b'b' ∷ b'l' ∷ b'e' ∷ []

abbrev pub max_wait_time : List ℕ
max_wait_time =
    b'S' ∷ b'o' ∷ b'c' ∷ b'k' ∷ b'_' ∷ b'M' ∷ b'a' ∷ b'x' ∷ b'W' ∷ b'a' ∷ b'i' ∷ b't' ∷ b'T' ∷ b'i'
    ∷ b'm' ∷ b'e' ∷ []

abbrev pub time_out_kick : List ℕ
time_out_kick =
    b'S' ∷ b'o' ∷ b'c' ∷ b'k' ∷ b'_' ∷ b'T' ∷ b'i' ∷ b'm' ∷ b'e' ∷ b'O' ∷ b'u' ∷ b't' ∷ b'K' ∷ b'i'
    ∷ b'c' ∷ b'k' ∷ []

abbrev pub flood_attack_kick_enable : List ℕ
flood_attack_kick_enable =
    b'S' ∷ b'o' ∷ b'c' ∷ b'k' ∷ b'_' ∷ b'F' ∷ b'l' ∷ b'o' ∷ b'o' ∷ b'd' ∷ b'A' ∷ b't' ∷ b't' ∷ b'a'
    ∷ b'c' ∷ b'k' ∷ b'K' ∷ b'i' ∷ b'c' ∷ b'k' ∷ b'E' ∷ b'n' ∷ b'a' ∷ b'b' ∷ b'l' ∷ b'e' ∷ []

abbrev pub flood_time_interval : List ℕ
flood_time_interval =
    b'S' ∷ b'o' ∷ b'c' ∷ b'k' ∷ b'_' ∷ b'F' ∷ b'l' ∷ b'o' ∷ b'o' ∷ b'd' ∷ b'T' ∷ b'i' ∷ b'm' ∷ b'e'
    ∷ b'I' ∷ b'n' ∷ b't' ∷ b'e' ∷ b'r' ∷ b'v' ∷ b'a' ∷ b'l' ∷ []

abbrev pub flood_kick_counter : List ℕ
flood_kick_counter =
    b'S' ∷ b'o' ∷ b'c' ∷ b'k' ∷ b'_' ∷ b'F' ∷ b'l' ∷ b'o' ∷ b'o' ∷ b'd' ∷ b'K' ∷ b'i' ∷ b'c' ∷ b'k'
    ∷ b'C' ∷ b'o' ∷ b'u' ∷ b'n' ∷ b't' ∷ b'e' ∷ b'r' ∷ []

-- `n > 5` of an int
abbrev above_five : ℕ → Bool
above_five n = ltb 5 n && ltb n (2 ^ 31)

-- ReadConf, on GetIntDefault and the settings of the constructor.
unfoldable pub read_conf : (List ℕ → ℕ → ℕ) → Config → Config
read_conf get_int_default c =
    let i_wait_time = get_int_default max_wait_time c.wait_time in
    record {
      worker_connections = get_int_default worker_connections c.worker_connections;
      recy_wait_time = get_int_default recy_connection_wait_time c.recy_wait_time;
      kick_time_enable = get_int_default wait_time_enable 0;
      wait_time = if above_five i_wait_time then i_wait_time else 5;
      timeout_kick = get_int_default time_out_kick 0;
      flood_enable = get_int_default flood_attack_kick_enable 0;
      flood_time_interval = get_int_default flood_time_interval 100;
      flood_kick_count = get_int_default flood_kick_counter 10;
    }
