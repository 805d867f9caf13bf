-- ===== src/Printf/Digits.antt =====
-- The digits that ngx_sprintf_num writes into `temp`.
use net_server.Base.{
  ℕ, zero, suc, ◌+◌, ◌*◌, ◌/◌, ◌%◌, ◌^◌, ◌-◌, ◌≤◌, ◌<◌, ◌≡◌, refl, sym, ap, ◌∙◌, inl, inr, true,
  false, some, List, [], ◌∷◌, arith, length, map, All, ltb, leb, ◌==◌, ◌≢◌, ◌⊎◌, Bool-cases,
  if◌then◌else◌,
}
use native.Mathlib.Decide.{ℕ_discrete}
use net_server.Printf.{
  digit_loop, num_digits, decimal_digit, hex_digit, upper_hex_digit, ngx_int64_len,
  ngx_max_uint32_value,
}

-- The base that `hexadecimal` stands for.
abbrev pub base_of : ℕ → ℕ
base_of hexadecimal = if hexadecimal == 0 then 10 else 16

-- The letter that the digits after 9 begin with.
abbrev pub letter_of : ℕ → ℕ
letter_of hexadecimal = if leb hexadecimal 1 then b'a' else b'A'

-- How a digit is written.
abbrev pub digit_char : ℕ → ℕ → ℕ
digit_char letter d = if ltb d 10 then b'0' + d else letter + (d - 10)

-- What digits are worth, read from the left, after others worth `n`.
abbrev pub value_of : ℕ → List ℕ → ℕ → ℕ
value_of base [] n = n
value_of base (d ∷ ds) n = value_of base ds (n * base + d)

-- There is a first digit, and it is not 0.
abbrev pub Leads : List ℕ → Type 0
Leads [] = ⊥
Leads (d ∷ ds) = d ≢ 0

-- The text is the numeral of `x`: the digits are those of the base, written each by its own character,
-- and there is no zero before them, but for the number 0.
pub record IsNumeral (base letter x : ℕ) (text : List ℕ) : Type 0 where
  pub digits : List ℕ
  pub written : text ≡ map (digit_char letter) digits
  pub of_base : All (λ d. d < base) digits
  pub value : value_of base digits 0 ≡ x
  pub shortest : (digits ≡ 0 ∷ []) ⊎ Leads digits
  pub fits : length text ≤ ngx_int64_len

-- What the loop adds to the digits that it has.
record Extends (base letter x room : ℕ) (acc text : List ℕ) : Type 0 where
  digits : List ℕ
  written : text ≡ map (digit_char letter) digits
  of_base : All (λ d. d < base) acc → All (λ d. d < base) digits
  value : value_of base digits 0 ≡ value_of base acc x
  zero_digit : x ≡ 0 → digits ≡ 0 ∷ acc
  leads : x ≢ 0 → Leads digits
  within : length digits ≤ length acc + room

module _ (digit : ℕ → ℕ) (base letter : ℕ)
    (worth : (d : ℕ) → d < base → digit d ≡ digit_char letter d) (below : (x : ℕ) → x % base < base)
    (split : (x : ℕ) → x / base * base + x % base ≡ x)
    (quotient : (x p : ℕ) → x < p * base → x / base < p) where
  abbrev power : ℕ → ℕ
  power zero = 1
  power (suc n) = power n * base

  zero_of : {y : ℕ} → (y == 0) ≡ true → y ≡ 0
  zero_of {y} e = ground arith

  not_zero : {y : ℕ} → (y == 0) ≡ false → y ≢ 0
  not_zero {y} e = ground arith

  room_left : (room y : ℕ) → y < power room → (y == 0) ≡ false → 0 < room
  room_left zero y lt more = ground arith
  room_left (suc room) y lt more = omega arith

  -- A number below the base is its own last digit.
  last_digit : (x : ℕ) → x / base ≡ 0 → x % base ≡ x
  last_digit x e =
      let clear : 0 * base + x % base ≡ x % base = omega arith in
      sym clear ∙ ap (λ k. k * base + x % base) (sym e) ∙ split x

  no_quotient : (x : ℕ) → x ≡ 0 → x / base ≡ 0
  no_quotient x e = let lt = quotient x 1 (omega (arith, e, below x)) in omega (arith, lt)

  digit_loop-Extends :
      (room x : ℕ) (acc text : List ℕ)
      → 0 < room
      → x < power room
      → text ≡ map (digit_char letter) acc
      → (ds : List ℕ) × (digit_loop digit base room x text ≡ some ds)
        × Extends base letter x room acc ds
  unfolding digit_loop
  digit_loop-Extends zero x acc text pos lt same = absurd (omega arith)
  digit_loop-Extends (suc room) x acc text pos lt same =
      let d = x % base in
      let text' = digit d ∷ text in
      let same' : text' ≡ map (digit_char letter) (d ∷ acc) =
        ap (λ c. c ∷ text) (worth d (below x)) ∙ ap (◌∷◌ (digit_char letter d)) same in
      let step : value_of base (d ∷ acc) (x / base) ≡ value_of base acc x =
        ap (value_of base acc) (split x) in
      elim (Bool-cases (x / base == 0)) [
        | inl last ↦
            let own = last_digit x (zero_of last) in
            (
              text',
              rw last refl,
              record {
                digits = d ∷ acc;
                written = same';
                of_base = λ ok. (below x, ok);
                value = ap (value_of base (d ∷ acc)) (sym (zero_of last)) ∙ step;
                zero_digit = λ e. ap (λ k. k ∷ acc) (own ∙ e);
                leads = λ ne e. ne (sym own ∙ e);
                within = omega arith;
              },
            )
        | inr more ↦
            let ih =
              digit_loop-Extends room (x / base) (d ∷ acc) text'
                (room_left room (x / base) (quotient x (power room) lt) more)
                (quotient x (power room) lt) same' in
            (
              ih.0,
              rw more ih.1,
              record {
                digits = ih.2.digits;
                written = ih.2.written;
                of_base = λ ok. ih.2.of_base (below x, ok);
                value = ih.2.value ∙ step;
                zero_digit = λ e. absurd (not_zero more (no_quotient x e));
                leads = λ ne. ih.2.leads (not_zero more);
                within = omega (arith, ih.2.within);
              },
            )
      ]

decimal_worth : (d : ℕ) → d < 10 → decimal_digit d ≡ digit_char b'a' d
decimal_worth d lt = ground arith

hex_worth : (d : ℕ) → d < 16 → hex_digit d ≡ digit_char b'a' d
hex_worth d lt = ground arith

upper_hex_worth : (d : ℕ) → d < 16 → upper_hex_digit d ≡ digit_char b'A' d
upper_hex_worth d lt = ground arith

length-map : (f : ℕ → ℕ) (xs : List ℕ) → length (map f xs) ≡ length xs
length-map f [] = refl
length-map f (x ∷ xs) = ap suc (length-map f xs)

Extends-IsNumeral :
    (base letter x : ℕ) (ds : List ℕ)
    → Extends base letter x ngx_int64_len [] ds
    → IsNumeral base letter x ds
Extends-IsNumeral base letter x ds e = record {
  digits = e.digits;
  written = e.written;
  of_base = e.of_base tt;
  value = e.value;
  shortest = elim (ℕ_discrete x 0) [ yes z ↦ inl (e.zero_digit z) | no ne ↦ inr (e.leads ne) ];
  fits = omega (arith, e.within, ap length e.written, length-map (digit_char letter) e.digits);
}

decimal-IsNumeral :
    (x : ℕ)
    → x < 2 ^ 64
    → (ds : List ℕ) × (digit_loop decimal_digit 10 ngx_int64_len x [] ≡ some ds)
      × IsNumeral 10 b'a' x ds
decimal-IsNumeral x lt =
    let e =
      digit_loop-Extends decimal_digit 10 b'a' decimal_worth (λ y. omega arith) (λ y. omega arith)
        (λ y p h. omega arith) ngx_int64_len x [] [] (omega arith) (omega arith) refl in
    (e.0, e.1, Extends-IsNumeral 10 b'a' x e.0 e.2)

hex-IsNumeral :
    (digit : ℕ → ℕ) (letter : ℕ)
    → ((d : ℕ) → d < 16 → digit d ≡ digit_char letter d)
    → (x : ℕ) → x < 2 ^ 64
    → (ds : List ℕ) × (digit_loop digit 16 ngx_int64_len x [] ≡ some ds) × IsNumeral 16 letter x ds
hex-IsNumeral digit letter worth x lt =
    let e =
      digit_loop-Extends digit 16 letter worth (λ y. omega arith) (λ y. omega arith)
        (λ y p h. omega arith) ngx_int64_len x [] [] (omega arith) (omega arith) refl in
    (e.0, e.1, Extends-IsNumeral 16 letter x e.0 e.2)

-- The numeral that `hexadecimal` asks for.
abbrev pub IsDigits : ℕ → ℕ → List ℕ → Type 0
IsDigits hexadecimal x ds = IsNumeral (base_of hexadecimal) (letter_of hexadecimal) x ds

-- The digits of every 64-bit number are found within the 20 bytes of `temp`, and are its numeral, in
-- base 10 or 16 as `hexadecimal` says, with small or capital letters.
pub num_digits-IsNumeral :
    (hexadecimal x : ℕ)
    → x < 2 ^ 64
    → (ds : List ℕ) × (num_digits hexadecimal x ≡ some ds) × IsDigits hexadecimal x ds
unfolding num_digits
num_digits-IsNumeral zero x lt = elim (Bool-cases (leb x ngx_max_uint32_value)) [
  | inl small ↦
      let same : x % 2 ^ 32 ≡ x = ground arith in
      let e = decimal-IsNumeral x lt in (e.0, rw small (rw same e.1), e.2)
  | inr large ↦ let e = decimal-IsNumeral x lt in (e.0, rw large e.1, e.2)
]
num_digits-IsNumeral (suc zero) x lt = hex-IsNumeral hex_digit b'a' hex_worth x lt
num_digits-IsNumeral (suc (suc n)) x lt =
    let other : (suc (suc n) == 0) ≡ false = ground arith in
    let not_lower : (suc (suc n) == 1) ≡ false = ground arith in
    let capital : leb (suc (suc n)) 1 ≡ false = ground arith in
    let e = hex-IsNumeral upper_hex_digit b'A' upper_hex_worth x lt in
    (e.0, rw (other, not_lower) e.1, rw (other, capital) e.2)
