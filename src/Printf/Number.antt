-- ===== src/Printf/Number.antt =====
-- ngx_sprintf_num writes the padded number and stops at the end of the buffer.
use net_server.Base.{
  ℕ, zero, suc, ◌+◌, ◌-◌, ◌≤◌, ◌<◌, ◌^◌, ◌≡◌, refl, sym, ap, ◌∙◌, inl, inr, some, List, [], ◌∷◌,
  ◌++◌, append-nil, append_assoc, arith, length, take, replicate, take_append, take-length,
  length-take, length-append, ltb, leb, Bool-cases, if◌then◌else◌,
}
use net_server.Printf.{pad, place, put, sprintf_num}
use net_server.Printf.Digits.{IsDigits, num_digits-IsNumeral}

pub take-append_past :
    (n : ℕ) (xs ys : List ℕ) → length xs ≤ n → take n (xs ++ ys) ≡ xs ++ take (n - length xs) ys
take-append_past n [] ys le = ap (λ k. take k ys) (omega arith)
take-append_past zero (x ∷ xs) ys le = absurd (omega arith)
take-append_past (suc n) (x ∷ xs) ys le =
    ap (λ zs. x ∷ zs)
      (take-append_past n xs ys (omega arith) ∙ ap (λ k. xs ++ take k ys) (omega arith))

pub take-take_append : (n : ℕ) (xs ys : List ℕ) → take n (take n xs ++ ys) ≡ take n (xs ++ ys)
take-take_append zero xs ys = refl
take-take_append (suc n) [] ys = refl
take-take_append (suc n) (x ∷ xs) ys = ap (λ zs. x ∷ zs) (take-take_append n xs ys)

-- A full buffer stays as it is.
pub take_full :
    (cap : ℕ) (text more : List ℕ)
    → length text ≤ cap
    → cap ≤ length text
    → take cap (text ++ more) ≡ text
take_full cap text more le ge = take_append cap text more ge ∙ take-length cap text le

pad-take :
    (cap z n : ℕ) (text : List ℕ)
    → length text ≤ cap
    → pad cap z n text ≡ take cap (text ++ replicate n z)
unfolding pad
pad-take cap z zero text le = sym (ap (take cap) (append-nil text) ∙ take-length cap text le)
pad-take cap z (suc n) text le = elim (Bool-cases (ltb (length text) cap)) [
  | inl room ↦
      let la = length-append text (z ∷ []) in
      rw room (
        pad-take cap z n (put z text) (ground (arith, la))
        ∙ ap (take cap) (append_assoc text (z ∷ []) (replicate n z)))
  | inr full ↦ rw full (sym (take_full cap text (z ∷ replicate n z) le (ground arith)))
]

clip :
    (cap : ℕ) (text ds : List ℕ)
    → length text ≤ cap
    → text ++ take (if leb cap (length text + length ds) then cap - length text else length ds) ds
      ≡ take cap (text ++ ds)
clip cap text ds le = elim (Bool-cases (leb cap (length text + length ds))) [
  | inl over ↦ rw over (sym (take-append_past cap text ds le))
  | inr fits ↦
      let all = take-length (length ds) ds (omega arith) in
      let room = take-length (cap - length text) ds (ground arith) in
      rw fits (ap (λ zs. text ++ zs) (all ∙ sym room) ∙ sym (take-append_past cap text ds le))
]

-- The number with the fill characters in front.
abbrev pub padded : ℕ → ℕ → List ℕ → List ℕ
padded z width ds = replicate (width - length ds) z ++ ds

pub place-take :
    (cap z width : ℕ) (text ds : List ℕ)
    → length text ≤ cap
    → place cap z width text ds ≡ take cap (text ++ padded z width ds)
unfolding place
place-take cap z width text ds le =
    let fill = replicate (width - length ds) z in
    let p = pad-take cap z (width - length ds) text le in
    let lp = length-take cap (text ++ fill) in
    clip cap (pad cap z (width - length ds) text) ds (omega (arith, ap length p, lp))
    ∙ ap (λ zs. take cap (zs ++ ds)) p
    ∙ take-take_append cap (text ++ fill) ds
    ∙ ap (take cap) (append_assoc text fill ds)

-- ngx_sprintf_num writes, behind a text that fits into the buffer, the numeral of every 64-bit number
-- in base 10, or in base 16 with small or capital letters, with no zero before it, filled up on the left to the width, and of this as much as there is room for: it
-- never writes past the end.
pub sprintf_num-take :
    (cap x z hexadecimal width : ℕ) (text : List ℕ)
    → x < 2 ^ 64
    → length text ≤ cap
    → (ds : List ℕ) × IsDigits hexadecimal x ds
      × (sprintf_num cap text x z hexadecimal width ≡ some (take cap (text ++ padded z width ds)))
unfolding sprintf_num
sprintf_num-take cap x z hexadecimal width text lt le =
    let d = num_digits-IsNumeral hexadecimal x lt in
    (d.0, d.2, rw d.1 (ap some (place-take cap z width text d.0 le)))
