-- ===== src/Crc/Bitwise.antt =====
-- The CRC with no table: one bit after the other, with the reversed polynomial.
use Prim.Native.Nat.{bit_xor}
use net_server.Base.{
  ℕ, zero, suc, ◌+◌, ◌*◌, ◌/◌, ◌%◌, ◌^◌, ◌<◌, ◌≡◌, refl, sym, ap, ◌∙◌, Bool, true, inl, inr, List,
  [], ◌∷◌, All, arith, get_or, ◌==◌, ◌&&◌, ==_iff, if◌then◌else◌, Bool-cases,
}
use net_server.Crc.{crc32_table, table_from, table_entry, reflect, reflect_loop, crc_loop, get_crc}
use net_server.Crc.Xor.{bit_xor_assoc, bit_xor_step, bit_xor-lt, shifted, bit_xor-shifted}

-- One bit is taken out at the low end.
abbrev pub bit_step : ℕ → ℕ
bit_step c = if c % 2 == 0 then c / 2 else bit_xor (c / 2) 0xedb88320

abbrev pub bit_steps : ℕ → ℕ → ℕ
bit_steps zero c = c
bit_steps (suc n) c = bit_steps n (bit_step c)

-- The CRC register after the bytes.
abbrev pub register : List ℕ → ℕ → ℕ
register [] crc = crc
register (b ∷ bs) crc = register bs (bit_steps 8 (bit_xor crc b))

abbrev pub IsByte : ℕ → Type 0
IsByte b = b < 2 ^ 8

-- Every entry of the table is eight steps from its index.
every : ℕ → (ℕ → Bool) → Bool
every zero f = true
every (suc n) f = f n && every n f

every_below : (n : ℕ) (f : ℕ → Bool) (i : ℕ) → every n f ≡ true → i < n → f i ≡ true
unfolding every
every_below zero f i e lt = absurd (omega arith)
every_below (suc n) f i e lt = ground (arith, every_below n f i)

entries : every 256 (λ i. table_entry i == bit_steps 8 i) ≡ true
unfolding every table_entry reflect reflect_loop
entries = refl

table_entry-bit_steps : (i : ℕ) → i < 256 → table_entry i ≡ bit_steps 8 i
table_entry-bit_steps i lt =
    (==_iff (table_entry i) (bit_steps 8 i)).0
      (every_below 256 (λ j. table_entry j == bit_steps 8 j) i entries lt)

get_or-table_from : (n s i : ℕ) → i < n → get_or (table_from s n) i 0 ≡ table_entry (s + i)
get_or-table_from zero s i lt = absurd (omega arith)
get_or-table_from (suc n) s zero lt = ap table_entry (omega arith)
get_or-table_from (suc n) s (suc i) lt =
    get_or-table_from n (suc s) i (omega arith) ∙ ap table_entry (omega arith)

lookup : (i : ℕ) → i < 256 → get_or crc32_table i 0 ≡ bit_steps 8 i
unfolding crc32_table
lookup i lt =
    let start : 0 + i ≡ i = omega arith in
    get_or-table_from 256 0 i lt ∙ ap table_entry start ∙ table_entry-bit_steps i lt

-- A step leaves the higher bits alone, but for the shift.
bit_step-high : (h l : ℕ) → bit_step (bit_xor (h * 2) l) ≡ bit_xor h (bit_step l)
bit_step-high h l =
    let s = bit_xor_step (h * 2) l in
    let twice : h * 2 / 2 ≡ h = omega arith in
    let half : bit_xor (h * 2) l / 2 ≡ bit_xor h (l / 2) =
      omega (arith, s) ∙ ap (λ x. bit_xor x (l / 2)) twice in
    let low : bit_xor (h * 2) l % 2 ≡ l % 2 = omega (arith, s) in
    elim (Bool-cases (l % 2 == 0)) [
      | inl e ↦ rw (low, half, e) refl
      | inr e ↦ rw (low, half, e) (bit_xor_assoc h (l / 2) 0xedb88320)
    ]

bit_steps-high : (n h l : ℕ) → bit_steps n (bit_xor (shifted n h) l) ≡ bit_xor h (bit_steps n l)
bit_steps-high zero h l = refl
bit_steps-high (suc n) h l =
    ap (bit_steps n) (bit_step-high (shifted n h) l) ∙ bit_steps-high n h (bit_step l)

-- One round of Get_CRC is eight steps.
one_byte :
    (crc b : ℕ)
    → IsByte b
    → bit_xor (crc / 2 ^ 8) (get_or crc32_table (bit_xor (crc % 2 ^ 8) b) 0)
      ≡ bit_steps 8 (bit_xor crc b)
one_byte crc b lt =
    let h = crc / 2 ^ 8 in
    let l = crc % 2 ^ 8 in
    let small : bit_xor l b < 256 =
      omega (arith, bit_xor-lt 8 l b (omega arith) (omega (arith, lt))) in
    let parts : bit_xor (shifted 8 h) l ≡ crc = bit_xor-shifted 8 h l (omega arith) ∙ omega arith in
    let split : bit_xor crc b ≡ bit_xor (shifted 8 h) (bit_xor l b) =
      ap (λ x. bit_xor x b) (sym parts) ∙ bit_xor_assoc (shifted 8 h) l b in
    ap (bit_xor h) (lookup (bit_xor l b) small)
    ∙ sym (ap (bit_steps 8) split ∙ bit_steps-high 8 h (bit_xor l b))

crc_loop-register : (bs : List ℕ) (crc : ℕ) → All IsByte bs → crc_loop bs crc ≡ register bs crc
unfolding crc_loop
crc_loop-register [] crc ok = refl
crc_loop-register (b ∷ bs) crc ok =
    crc_loop-register bs _ ok.1 ∙ ap (register bs) (one_byte crc b ok.0)

-- Get_CRC, with its table of 256 entries, computes the CRC-32 of any bytes bit by bit: the register
-- starts with all ones, each byte is added at the low end and shifted out through the reversed
-- polynomial, and the result is inverted.
pub get_crc-register :
    (bs : List ℕ) → All IsByte bs → get_crc bs ≡ bit_xor (register bs 0xffffffff) 0xffffffff
unfolding get_crc
get_crc-register bs ok = ap (λ x. bit_xor x 0xffffffff) (crc_loop-register bs 0xffffffff ok)

bit_step-lt : (c : ℕ) → c < 2 ^ 32 → bit_step c < 2 ^ 32
bit_step-lt c lt =
    let x = bit_xor-lt 32 (c / 2) 0xedb88320 (omega arith) (omega arith) in ground (arith, x)

bit_steps-lt : (n c : ℕ) → c < 2 ^ 32 → bit_steps n c < 2 ^ 32
bit_steps-lt zero c lt = lt
bit_steps-lt (suc n) c lt = bit_steps-lt n (bit_step c) (bit_step-lt c lt)

register-lt : (bs : List ℕ) (c : ℕ) → All IsByte bs → c < 2 ^ 32 → register bs c < 2 ^ 32
register-lt [] c ok lt = lt
register-lt (b ∷ bs) c ok lt = register-lt bs _ ok.1 (
    bit_steps-lt 8 (bit_xor c b)
      (omega (arith, bit_xor-lt 32 c b (omega arith) (omega (arith, ok.0)))))

-- The result fits into 32 bits.
pub get_crc-lt : (bs : List ℕ) → All IsByte bs → get_crc bs < 2 ^ 32
get_crc-lt bs ok =
    let r = register-lt bs 0xffffffff ok (omega arith) in
    rw (get_crc-register bs ok) (
      omega
        (arith, bit_xor-lt 32 (register bs 0xffffffff) 0xffffffff (omega (arith, r)) (omega arith)))
