-- ===== src/Examples/Configuring.antt =====
-- Examples for Strings, Conf and ReadConf.
use net_server.Base.{
  ℕ, ◌≢◌, All-replicate, ◌≡◌, refl, none, some, List, [], ◌∷◌, ◌++◌, arith, replicate,
}
use net_server.Types.{Config}
use net_server.Strings.{ltrim, skip_spaces, copy_down}
use net_server.Strings.Trimming.{ltrim-trims}
use net_server.Conf.{load_line}
use net_server.Conf.Fields.{Setting}
use net_server.Conf.Lines.{load_line-overflows}

-- "  ab" in an array of seven bytes
ltrim-trims_example :
    ltrim (b' ' ∷ b' ' ∷ b'a' ∷ b'b' ∷ 0 ∷ 7 ∷ 8 ∷ []) ≡ some (b'a' ∷ b'b' ∷ 0 ∷ 7 ∷ 0 ∷ 7 ∷ 8 ∷ [])
ltrim-trims_example =
    ltrim-trims 1 (b'a' ∷ b'b' ∷ []) (7 ∷ 8 ∷ []) (ground arith, (ground arith, tt)) (ground arith)
      (omega arith)

-- In an array of five, Ltrim reads behind the end.
ltrim-test : ltrim (b' ' ∷ b' ' ∷ b'a' ∷ b'b' ∷ 0 ∷ []) ≡ none
unfolding ltrim skip_spaces copy_down
ltrim-test = refl

-- "ab =  12\r\n"
abbrev a_setting : Setting
a_setting = record {
  name = b'a' ∷ b'b' ∷ [];
  before = 1;
  after = 2;
  value = b'1' ∷ b'2' ∷ [];
  ending = 13 ∷ 10 ∷ [];
}

-- A name of 51 bytes
abbrev long_name : List ℕ
long_name = replicate 51 b'a'

load_line-overflows_example : load_line ((long_name ++ b'=' ∷ b'1' ∷ []) ++ 10 ∷ []) ≡ none
load_line-overflows_example =
    load_line-overflows long_name (b'1' ∷ []) (10 ∷ [])
      (All-replicate (λ b. b ≢ 0) 51 b'a' (ground arith))
      (All-replicate (λ b. b ≢ b'=') 51 b'a' (ground arith)) (omega arith) refl (ground arith) refl
      (refl, tt)

abbrev some_config : Config
some_config = record {
  worker_connections = 1;
  recy_wait_time = 60;
  kick_time_enable = 0;
  wait_time = 0;
  timeout_kick = 0;
  flood_enable = 0;
  flood_time_interval = 0;
  flood_kick_count = 0;
}
