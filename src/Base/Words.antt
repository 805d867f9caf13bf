-- ===== src/Base/Words.antt =====
-- Machine words as native numbers below their modulus. An `int` is its bit pattern below 2 ^ 32.
use Prim.Native.Nat.{ℕ, ◌+◌, ◌-◌, ◌%◌, ◌^◌}
use mathlib.Core.Bool.{Bool, ◌&&◌}
use net_server.Base.Tests.{ltb, leb, if◌then◌else◌}

abbrev pub inc32 : ℕ → ℕ
inc32 n = (n + 1) % 2 ^ 32

abbrev pub dec32 : ℕ → ℕ
dec32 n = (n + 2 ^ 32 - 1) % 2 ^ 32

-- The pattern stands for an integer above 0.
abbrev pub is_pos32 : ℕ → Bool
is_pos32 n = ltb 0 n && ltb n (2 ^ 31)

abbrev pub inc64 : ℕ → ℕ
inc64 n = (n + 1) % 2 ^ 64

abbrev pub sub64 : ℕ → ℕ → ℕ
sub64 a b = (a + 2 ^ 64 - b) % 2 ^ 64

-- What an int below zero has too much in its bit pattern.
abbrev pub excess32 : ℕ → ℕ
excess32 n = if ltb n (2 ^ 31) then 0 else 2 ^ 32

-- `a <= b` between two values of type `int`.
abbrev pub le_int : ℕ → ℕ → Bool
le_int a b = leb (a + excess32 b) (b + excess32 a)
