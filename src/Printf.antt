-- ===== src/Printf.antt =====
-- Formatted output of app/ngx_printf.cxx: ngx_sprintf_num and ngx_vslprintf, which ngx_slprintf and
-- ngx_snprintf call.
-- A text is the list of the bytes written so far and `cap` the room from the start of the buffer, so
-- `buf < last` is `length text < cap`. Writes are not clipped here: that none passes `last` is proved.
-- `none` is a fault of the code: a digit before the start of `temp`, a format that ends within a
-- directive (the end is passed over), an argument that is missing or of another type. A number is a
-- bit pattern. The type `double` is a parameter.
pub mod Digits
pub mod Number
pub mod Clip
pub mod Render
pub mod Rounds
use net_server.Base.{
  ◌>>=◌, ℕ, zero, suc, ◌+◌, ◌-◌, ◌*◌, ◌/◌, ◌%◌, ◌^◌, Bool, true, false, Option, none, some, List,
  [], ◌∷◌, ◌++◌, ◌&&◌, ◌||◌, length, take, get_or, ltb, leb, ◌==◌, if◌then◌else◌,
}

-- NGX_INT64_LEN, the size of `temp` but for one byte that is not used.
abbrev pub ngx_int64_len : ℕ
ngx_int64_len = 20

-- NGX_MAX_UINT32_VALUE
abbrev pub ngx_max_uint32_value : ℕ
ngx_max_uint32_value = 0xffffffff

abbrev pub decimal_digit : ℕ → ℕ
decimal_digit d = d + 48

-- hex[] and HEX[]
abbrev pub hex_digit : ℕ → ℕ
hex_digit d = if ltb d 10 then d + 48 else d + 87

abbrev pub upper_hex_digit : ℕ → ℕ
upper_hex_digit d = if ltb d 10 then d + 48 else d + 55

-- `do … while (ui64 /= base)`, from the last digit to the first. The fuel is what is left of `temp`.
unfoldable pub digit_loop : (ℕ → ℕ) → ℕ → ℕ → ℕ → List ℕ → Option (List ℕ)
digit_loop digit base zero x acc = none
digit_loop digit base (suc room) x acc =
    let d = digit (x % base) ∷ acc in
    let rest = digit_loop digit base room (x / base) d in if x / base == 0 then some d else rest

-- The digits of a number; `hexadecimal` is 0, 1 or another value.
unfoldable pub num_digits : ℕ → ℕ → Option (List ℕ)
num_digits hexadecimal ui64 =
    if hexadecimal == 0
    then (if leb ui64 ngx_max_uint32_value
        then digit_loop decimal_digit 10 ngx_int64_len (ui64 % 2 ^ 32) []
        else digit_loop decimal_digit 10 ngx_int64_len ui64 [])
    else if hexadecimal == 1
    then digit_loop hex_digit 16 ngx_int64_len ui64 []
    else digit_loop upper_hex_digit 16 ngx_int64_len ui64 []

abbrev pub put : ℕ → List ℕ → List ℕ
put b text = text ++ b ∷ []

-- `while (len++ < width && buf < last)`, with `n` rounds left to the width.
unfoldable pub pad : ℕ → ℕ → ℕ → List ℕ → List ℕ
pad cap z zero text = text
pad cap z (suc n) text =
    let more = pad cap z n (put z text) in if ltb (length text) cap then more else text

-- The rest of ngx_sprintf_num, when the digits are in `temp`.
unfoldable pub place : ℕ → ℕ → ℕ → List ℕ → List ℕ → List ℕ
unfolding pad
place cap z width text ds =
    let padded = pad cap z (width - length ds) text in
    let len = (if leb cap (length padded + length ds) then cap - length padded else length ds) in
    padded ++ take len ds

-- ngx_sprintf_num
unfoldable pub sprintf_num : ℕ → List ℕ → ℕ → ℕ → ℕ → ℕ → Option (List ℕ)
sprintf_num cap text ui64 z hexadecimal width =
    num_digits hexadecimal ui64 >>= λ ds. some (place cap z width text ds)

-- What stands between `%` and the letter of a directive.
pub record Spec : Type 0 where
  pub zero_char : ℕ
  pub width : ℕ
  pub sign : Bool
  pub hex : ℕ
  pub frac_width : ℕ

abbrev pub is_digit : ℕ → Bool
is_digit c = leb b'0' c && leb c b'9'

-- `while (*fmt >= '0' && *fmt <= '9')`
unfoldable pub parse_number : List ℕ → ℕ → ℕ × List ℕ
parse_number [] n = (n, [])
parse_number (c ∷ fmt) n =
    let more = parse_number fmt ((n * 10 + (c - b'0')) % 2 ^ 64) in
    if is_digit c then more else (n, c ∷ fmt)

-- What `u`, `X` and `x` set.
abbrev pub set_flag : ℕ → Spec → Spec
set_flag c sp =
    if c == b'u'
    then record sp { sign = false }
    else if c == b'X'
    then record sp { hex = 2; sign = false }
    else record sp { hex = 1; sign = false }

-- The `for (;;)` over the letters before the directive.
unfoldable pub parse_flags : List ℕ → Spec → Spec × List ℕ
parse_flags [] sp = (sp, [])
parse_flags (c ∷ fmt) sp =
    let more = parse_flags fmt (set_flag c sp) in
    if c == b'u' || (c == b'X' || c == b'x')
    then more
    else if c == b'.'
    then (let (n, rest) = parse_number fmt sp.frac_width in (record sp { frac_width = n }, rest))
    else (sp, c ∷ fmt)

-- `double`: the test for a sign, the change of sign, the conversion to int64_t, and the digits after
-- the point, `(uint64_t)((f - (double)ui64) * scale + 0.5)`.
pub record Doubles : Type 1 where
  pub Double : Type 0
  pub is_negative : Double → Bool
  pub negated : Double → Double
  pub whole : Double → ℕ
  pub digits_after : Double → ℕ → ℕ → ℕ

-- What a directive writes.
pub data Item : Type 0 where
  char : ℕ → Item
  number : Bool → ℕ → Spec → Item
  string : List ℕ → Item
  fraction : Bool → ℕ → ℕ → Spec → Item

-- An `int64_t`: whether it is negative, and `ui64`.
abbrev pub magnitude : ℕ → Bool × ℕ
magnitude x = if ltb x (2 ^ 63) then (false, x) else (true, 2 ^ 64 - x)

-- `(int64_t)` of an `int`.
abbrev pub widen : ℕ → ℕ
widen x = if ltb x (2 ^ 31) then x else x + (2 ^ 64 - 2 ^ 32)

-- A number with or without a sign.
abbrev pub number_item : ℕ → ℕ → Spec → Item
number_item i64 ui64 sp =
    if sp.sign then number (magnitude i64).0 (magnitude i64).1 sp else number false ui64 sp

-- `for (n = frac_width; n; n--) scale *= 10`
abbrev pub scale_by : ℕ → ℕ → ℕ
scale_by zero scale = scale
scale_by (suc n) scale = scale_by n (scale * 10 % 2 ^ 64)

-- Writing an item.
unfoldable pub copy : ℕ → List ℕ → List ℕ → List ℕ
copy cap [] text = text
copy cap (c ∷ p) text =
    let more = copy cap p (put c text) in if ltb (length text) cap then more else text

abbrev pub put_sign : Bool → List ℕ → List ℕ
put_sign negative text = if negative then put b'-' text else text

unfoldable pub emit : ℕ → Item → List ℕ → Option (List ℕ)
emit cap (char c) text = some (put c text)
emit cap (number negative ui64 sp) text =
    sprintf_num cap (put_sign negative text) ui64 sp.zero_char sp.hex sp.width
emit cap (string p) text = some (copy cap p text)
emit cap (fraction negative ui64 frac sp) text =
    sprintf_num cap (put_sign negative text) ui64 sp.zero_char 0 sp.width >>= λ text₁.
    if sp.frac_width == 0
    then some text₁
    else sprintf_num cap (if ltb (length text₁) cap then put b'.' text₁ else text₁) frac b'0' 0
        sp.frac_width

module _ (fl : Doubles) where
  open fl use {Double, is_negative, negated, whole, digits_after}

  -- An argument of the call.
  pub data Arg : Type 0 where
    word : ℕ → Arg
    text_at : List ℕ → Arg
    double : Double → Arg

  -- `%f`
  abbrev pub fraction_item : Double → Spec → Item
  fraction_item f sp =
      let g = (if is_negative f then negated f else f) in
      let ui64 = whole g in
      let scale = scale_by sp.frac_width 1 in
      let frac = digits_after g ui64 scale in
      if sp.frac_width == 0
      then fraction (is_negative f) ui64 0 sp
      else if frac == scale
      then fraction (is_negative f) ((ui64 + 1) % 2 ^ 64) 0 sp
      else fraction (is_negative f) ui64 frac sp

  -- Directives that take a number, by their letter.
  abbrev pub word_item : ℕ → ℕ → Spec → Item
  word_item c x sp =
      if c == b'd'
      then number_item (widen (x % 2 ^ 32)) (x % 2 ^ 32) sp
      else if c == b'p'
      then number false (x % 2 ^ 64)
          (record sp { hex = 2; sign = false; zero_char = b'0'; width = 16 })
      else if c == b'P'
      then number_item (widen (x % 2 ^ 32)) 0 (record sp { sign = true })
      else number_item (x % 2 ^ 64) (x % 2 ^ 64) sp

  abbrev pub is_word : ℕ → Bool
  is_word c = c == b'd' || (c == b'i' || (c == b'L' || (c == b'p' || c == b'P')))

  -- The argument that a letter takes; `none` if it is missing or of another type.
  abbrev pub take_arg : ℕ → Spec → List Arg → Option (Item × List Arg)
  take_arg c sp [] = none
  take_arg c sp (word x ∷ args) = if is_word c then some (word_item c x sp, args) else none
  take_arg c sp (text_at p ∷ args) = if c == b's' then some (string p, args) else none
  take_arg c sp (double f ∷ args) = if c == b'f' then some (fraction_item f sp, args) else none

  -- The `switch (*fmt)` at the letter of a directive.
  unfoldable pub convert : ℕ → Spec → List Arg → Option (Item × List Arg)
  convert c sp args =
      if is_word c || (c == b's' || c == b'f') then take_arg c sp args else some (char c, args)

  -- One round of `while (*fmt && buf < last)` up to the writing: the item, the rest of the format and
  -- the arguments that are left.
  unfoldable pub next_item : List ℕ → List Arg → Option (Item × List ℕ × List Arg)
  next_item [] args = none
  next_item (c ∷ fmt) args =
      if c == b'%'
      then (let (width, fmt₁) = parse_number fmt 0 in
          let (sp, fmt₂) = parse_flags fmt₁ (record {
            zero_char = if get_or fmt 0 0 == b'0' then b'0' else b' ';
            width = width;
            sign = true;
            hex = 0;
            frac_width = 0;
          }) in
          elim fmt₂ [
            | [] ↦ none
            | letter ∷ rest ↦ convert letter sp args >>= λ (item, args'). some (item, rest, args')
          ])
      else some (char c, fmt, args)

  -- ngx_vslprintf. The fuel bounds the rounds.
  unfoldable pub vslprintf : ℕ → ℕ → List ℕ → List Arg → List ℕ → Option (List ℕ)
  vslprintf zero cap fmt args text = none
  vslprintf (suc fuel) cap [] args text = some text
  vslprintf (suc fuel) cap (c ∷ fmt) args text =
      let more = next_item (c ∷ fmt) args >>= λ (item, rest, args').
      emit cap item text >>= λ text'. vslprintf fuel cap rest args' text' in
      if ltb (length text) cap then more else some text

  -- ngx_snprintf, and ngx_slprintf with `cap` for `last - buf`.
  unfoldable pub snprintf : ℕ → List ℕ → List Arg → Option (List ℕ)
  snprintf cap fmt args = vslprintf (suc (length fmt)) cap fmt args []
