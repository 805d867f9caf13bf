-- ===== src/Crc/Xor.antt =====
-- Laws of bit_xor at variables.
use Prim.Native.Nat.{digits, bit_xor, bit_xor-bitwise, differ}
use net_server.Base.{ℕ, zero, suc, ◌+◌, ◌*◌, ◌/◌, ◌%◌, ◌≤◌, ◌<◌, ◌≡◌, refl, ap, ◌∙◌, arith}

abbrev xor_digits : ℕ → ℕ → ℕ → ℕ
xor_digits k x y = digits (λ b. b) differ k x y

-- More fuel than the number is worth changes nothing.
fuel_enough : (k k' x y : ℕ) → x ≤ k → x ≤ k' → xor_digits k x y ≡ xor_digits k' x y
fuel_enough zero zero x y le le' = refl
fuel_enough zero (suc k') zero y le le' = refl
fuel_enough zero (suc k') (suc x) y le le' = absurd (omega arith)
fuel_enough (suc k) zero zero y le le' = refl
fuel_enough (suc k) zero (suc x) y le le' = absurd (omega arith)
fuel_enough (suc k) (suc k') zero y le le' = refl
fuel_enough (suc k) (suc k') (suc x) y le le' =
    omega (arith, fuel_enough k k' (suc x / 2) (y / 2) (omega arith) (omega arith))

differ_digit : (x y : ℕ) → x < 2 → y < 2 → differ x y ≡ (x + y) % 2
differ_digit zero y lt lt' = omega arith
differ_digit (suc zero) zero lt lt' = refl
differ_digit (suc zero) (suc zero) lt lt' = refl
differ_digit (suc zero) (suc (suc y)) lt lt' = absurd (omega arith)
differ_digit (suc (suc x)) y lt lt' = absurd (omega arith)

pub zero-bit_xor : (b : ℕ) → bit_xor 0 b ≡ b
zero-bit_xor b = bit_xor-bitwise 0 b

pub bit_xor_step : (a b : ℕ) → bit_xor a b ≡ bit_xor (a / 2) (b / 2) * 2 + (a % 2 + b % 2) % 2
bit_xor_step zero b = omega (arith, zero-bit_xor b, zero-bit_xor (b / 2))
bit_xor_step (suc a) b = omega (
  arith,
  bit_xor-bitwise (suc a) b,
  bit_xor-bitwise (suc a / 2) (b / 2),
  fuel_enough a (suc a / 2) (suc a / 2) (b / 2) (omega arith) (omega arith),
  differ_digit (suc a % 2) (b % 2) (omega arith) (omega arith),
)

half : (a b : ℕ) → bit_xor a b / 2 ≡ bit_xor (a / 2) (b / 2)
half a b = omega (arith, bit_xor_step a b)

assoc_below :
    (n a b c : ℕ) → a ≤ n → b ≤ n → c ≤ n → bit_xor (bit_xor a b) c ≡ bit_xor a (bit_xor b c)
assoc_below zero zero zero zero p q r = refl
assoc_below zero (suc a) b c p q r = absurd (omega arith)
assoc_below zero zero (suc b) c p q r = absurd (omega arith)
assoc_below zero zero zero (suc c) p q r = absurd (omega arith)
assoc_below (suc n) a b c p q r = omega (
  arith,
  bit_xor_step a b,
  bit_xor_step b c,
  bit_xor_step (bit_xor a b) c,
  bit_xor_step a (bit_xor b c),
  ap (λ x. bit_xor x (c / 2)) (half a b),
  ap (λ x. bit_xor (a / 2) x) (half b c),
  assoc_below n (a / 2) (b / 2) (c / 2) (omega arith) (omega arith) (omega arith),
)

pub bit_xor_assoc : (a b c : ℕ) → bit_xor (bit_xor a b) c ≡ bit_xor a (bit_xor b c)
bit_xor_assoc a b c = assoc_below (a + b + c) a b c (omega arith) (omega arith) (omega arith)

-- `h << n`
abbrev pub shifted : ℕ → ℕ → ℕ
shifted zero h = h
shifted (suc n) h = shifted n h * 2

pub bit_xor-lt : (n a b : ℕ) → a < shifted n 1 → b < shifted n 1 → bit_xor a b < shifted n 1
bit_xor-lt zero zero zero p q = p
bit_xor-lt zero (suc a) b p q = absurd (omega arith)
bit_xor-lt zero zero (suc b) p q = absurd (omega arith)
bit_xor-lt (suc n) a b p q =
    omega (arith, bit_xor_step a b, bit_xor-lt n (a / 2) (b / 2) (omega arith) (omega arith))

bit_xor-zero_fuel : (n a : ℕ) → a ≤ n → bit_xor a 0 ≡ a
bit_xor-zero_fuel n zero le = refl
bit_xor-zero_fuel zero (suc a) le = absurd (omega arith)
bit_xor-zero_fuel (suc n) (suc a) le =
    omega (arith, bit_xor_step (suc a) 0, bit_xor-zero_fuel n (suc a / 2) (omega arith))

-- Bits that do not meet are added.
pub bit_xor-shifted : (n h l : ℕ) → l < shifted n 1 → bit_xor (shifted n h) l ≡ shifted n h + l
bit_xor-shifted zero h zero p = bit_xor-zero_fuel h h (omega arith) ∙ omega arith
bit_xor-shifted zero h (suc l) p = absurd (omega arith)
bit_xor-shifted (suc n) h l p = omega (
  arith,
  bit_xor_step (shifted (suc n) h) l,
  ap (λ x. bit_xor x (l / 2)) (twice_half (shifted n h)),
  bit_xor-shifted n h (l / 2) (omega arith),
)
  where
    twice_half : (x : ℕ) → x * 2 / 2 ≡ x
    twice_half x = omega arith
