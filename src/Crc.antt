-- ===== src/Crc.antt =====
-- CCRC32 of misc/ngx_c_crc32.cxx. An `unsigned int` is a number below 2 ^ 32, and so is the `int`
-- that Get_CRC returns, as its bit pattern. `x & 1`, `x & (1 << 31)` and `x & 0xFF` are written as
-- remainders.
pub mod Xor
pub mod Bitwise
use Prim.Native.Nat.{bit_or, bit_xor}
use net_server.Base.{
  ℕ, zero, suc, ◌+◌, ◌*◌, ◌/◌, ◌%◌, ◌^◌, List, [], ◌∷◌, get_or, ◌==◌, if◌then◌else◌,
}

-- The loop of Reflect with `n` rounds left; the bit that is set is `ch - i`.
reflect_loop : ℕ → ℕ → ℕ → ℕ
reflect_loop zero ref value = value
reflect_loop (suc n) ref value =
    reflect_loop n (ref / 2) (if ref % 2 == 0 then value else bit_or value (2 ^ n))

-- Reflect
unfoldable pub reflect : ℕ → ℕ → ℕ
unfolding reflect_loop
reflect ref ch = reflect_loop ch ref 0

abbrev pub polynomial : ℕ
polynomial = 0x04c11db7

-- One round of the loop over `j`.
abbrev pub table_step : ℕ → ℕ
table_step t = bit_xor (t * 2 % 2 ^ 32) (if t / 2 ^ 31 % 2 == 0 then 0 else polynomial)

abbrev pub table_rounds : ℕ → ℕ → ℕ
table_rounds zero t = t
table_rounds (suc n) t = table_rounds n (table_step t)

-- crc32_table[i]
unfoldable pub table_entry : ℕ → ℕ
unfolding reflect
table_entry i = reflect (table_rounds 8 (reflect i 8 * 2 ^ 24 % 2 ^ 32)) 32

-- The loop of Init_CRC32_Table with `n` entries left.
abbrev pub table_from : ℕ → ℕ → List ℕ
table_from i zero = []
table_from i (suc n) = table_entry i ∷ table_from (suc i) n

-- Init_CRC32_Table
unfoldable pub crc32_table : List ℕ
unfolding table_entry
crc32_table = table_from 0 256

-- The loop of Get_CRC.
unfoldable pub crc_loop : List ℕ → ℕ → ℕ
unfolding crc32_table
crc_loop [] crc = crc
crc_loop (b ∷ bs) crc =
    crc_loop bs (bit_xor (crc / 2 ^ 8) (get_or crc32_table (bit_xor (crc % 2 ^ 8) b) 0))

-- Get_CRC
unfoldable pub get_crc : List ℕ → ℕ
unfolding crc_loop
get_crc buffer = bit_xor (crc_loop buffer 0xffffffff) 0xffffffff
