-- ===== src/Printf/Rounds.antt =====
-- ngx_vslprintf ends: every round takes at least one character of the format.
use net_server.Base.{
  ◌>>=◌, ℕ, zero, suc, ◌+◌, ◌*◌, ◌-◌, ◌%◌, ◌^◌, ◌≤◌, ◌<◌, ◌≡◌, refl, sym, ap, inl, inr, true,
  Option, none, some, List, [], ◌∷◌, arith, length, ltb, get_or, ◌||◌, ◌==◌, Bool-cases,
  Option-cases, if◌then◌else◌,
}
use net_server.Printf.{
  Spec, Item, is_digit, set_flag, parse_number, parse_flags, emit, Doubles, Arg, convert, next_item,
  vslprintf,
}

parse_number-length : (fmt : List ℕ) (n : ℕ) → length (parse_number fmt n).1 ≤ length fmt
unfolding parse_number
parse_number-length [] n = omega arith
parse_number-length (c ∷ fmt) n =
    let ih = parse_number-length fmt ((n * 10 + (c - b'0')) % 2 ^ 64) in
    elim (Bool-cases (is_digit c)) [
      | inl digit ↦ rw digit (omega (arith, ih))
      | inr other ↦ rw other (omega arith)
    ]

parse_flags-length : (fmt : List ℕ) (sp : Spec) → length (parse_flags fmt sp).1 ≤ length fmt
unfolding parse_flags
parse_flags-length [] sp = omega arith
parse_flags-length (c ∷ fmt) sp =
    let ih = parse_flags-length fmt (set_flag c sp) in
    let number = parse_number-length fmt sp.frac_width in
    elim (Bool-cases (c == b'u' || (c == b'X' || c == b'x'))) [
      | inl flag ↦ rw flag (omega (arith, ih))
      | inr other ↦ rw other (elim (Bool-cases (c == b'.')) [
        | inl point ↦ rw point (omega (arith, number))
        | inr letter ↦ rw letter (omega arith)
      ])
    ]

module _ (fl : Doubles) where
  letter_rest :
      (o : Option (Item × List (Arg fl))) (rest : List ℕ) (it : Item × List ℕ × List (Arg fl))
      → (o >>= λ (item, args'). some (item, rest, args')) ≡ some it
      → it.1 ≡ rest
  letter_rest none rest it e = cc
  letter_rest (some r) rest it e =
      let same : (Item × List ℕ × List (Arg fl)) = (r.0, rest, r.1) in
      let p : same ≡ it = cc in ap (λ (x : Item × List ℕ × List (Arg fl)). x.1) (sym p)

  -- The part of a directive behind its flags.
  abbrev letter_of : List ℕ → Spec → List (Arg fl) → Option (Item × List ℕ × List (Arg fl))
  letter_of fmt sp args = elim fmt [
    | [] ↦ none
    | letter ∷ rest ↦ convert fl letter sp args >>= λ (item, args'). some (item, rest, args')
  ]

  letter_of-length :
      (fmt : List ℕ) (sp : Spec) (args : List (Arg fl)) (it : Item × List ℕ × List (Arg fl))
      → letter_of fmt sp args ≡ some it
      → length it.1 ≤ length fmt
  letter_of-length [] sp args it e = cc
  letter_of-length (letter ∷ rest) sp args it e =
      let same = letter_rest (convert fl letter sp args) rest it e in omega (arith, ap length same)

  next_item-length :
      (c : ℕ) (fmt : List ℕ) (args : List (Arg fl)) (it : Item × List ℕ × List (Arg fl))
      → next_item fl (c ∷ fmt) args ≡ some it
      → length it.1 ≤ length fmt
  unfolding next_item
  next_item-length c fmt args it e = elim (Bool-cases (c == b'%')) [
    | inr plain ↦
        let e' : some (Item.char c, fmt, args) ≡ some it = rw plain at e in
        let p : (Item.char c, fmt, args) ≡ it = cc in
        omega (arith, ap (λ (x : Item × List ℕ × List (Arg fl)). length x.1) p)
    | inl percent ↦
        let sp₀ : Spec = record {
          zero_char = if get_or fmt 0 0 == b'0' then b'0' else b' ';
          width = (parse_number fmt 0).0;
          sign = true;
          hex = 0;
          frac_width = 0;
        } in
        let number = parse_number-length fmt 0 in
        let flags = parse_flags-length (parse_number fmt 0).1 sp₀ in
        let r = parse_flags (parse_number fmt 0).1 sp₀ in
        let letter = letter_of-length r.1 r.0 args it (rw percent at e) in
        omega (arith, letter, flags, number)
  ]

  -- The bound of one round more than the format has characters is never reached: with any more the
  -- result of ngx_vslprintf is the same.
  pub vslprintf-rounds :
      (fuel more cap : ℕ) (fmt : List ℕ) (args : List (Arg fl)) (text : List ℕ)
      → length fmt < fuel
      → fuel ≤ more
      → vslprintf fl more cap fmt args text ≡ vslprintf fl fuel cap fmt args text
  unfolding vslprintf
  vslprintf-rounds zero more cap fmt args text lt le = absurd (omega arith)
  vslprintf-rounds (suc fuel) zero cap fmt args text lt le = absurd (omega arith)
  vslprintf-rounds (suc fuel) (suc more) cap [] args text lt le = refl
  vslprintf-rounds (suc fuel) (suc more) cap (c ∷ fmt) args text lt le =
      elim (Bool-cases (ltb (length text) cap)) [
        | inr stop ↦ rw stop refl
        | inl room ↦ elim (Option-cases (next_item fl (c ∷ fmt) args)) [
          | inl bad ↦ rw (room, bad) refl
          | inr (it, item_eq) ↦
              let short = next_item-length c fmt args it item_eq in
              elim (Option-cases (emit cap it.0 text)) [
                | inl bad ↦ rw (room, item_eq) (rw bad refl)
                | inr (text', text_eq) ↦
                    rw (room, item_eq)
                      (rw text_eq (
                        vslprintf-rounds fuel more cap it.1 it.2 text' (omega arith) (omega arith)))
              ]
        ]
      ]
