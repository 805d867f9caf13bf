-- ===== src/Flood.antt =====
-- CSocekt::TestFlood in net/ngx_c_socket.cxx.
use net_server.Base.{ℕ, Bool, ltb, if◌then◌else◌}
use net_server.Base.Words.{inc32, le_int, sub64}
use net_server.Types.{Conn, Config}

-- `FloodAttackCount >= m_floodKickCount`
abbrev pub reached : ℕ → ℕ → Bool
reached limit count = le_int limit count

-- A package has come at `now` milliseconds: the connection with its new count, and the verdict.
unfoldable pub test_flood : Config → ℕ → Conn → Conn × Bool
test_flood cfg now c =
    let c' : Conn =
      (if ltb (sub64 now c.flood_kick_last_time) cfg.flood_time_interval
        then record c {
          flood_attack_count = inc32 c.flood_attack_count;
          flood_kick_last_time = now;
        }
        else record c { flood_attack_count = 0; flood_kick_last_time = now }) in
    (c', reached cfg.flood_kick_count c'.flood_attack_count)
