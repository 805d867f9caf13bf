-- ===== src/Log/Line.antt =====
-- A line of the log: what it says, and where it is cut off.
use net_server.Base.{
  ℕ, zero, suc, ◌+◌, ◌≤◌, ◌<◌, ◌≡◌, refl, sym, ap, ◌∙◌, inl, inr, Bool, true, false, Option, some,
  ◌>>=◌, List, [], ◌∷◌, ◌++◌, arith, length, take, take-length, append-nil, length-take, ltb,
  ltb→lt, lt→ltb, leb, ◌==◌, if◌then◌else◌, Bool-cases,
}
use net_server.Base.Text.{bytes}
use net_server.Log.{max_error_str, Libc, left_str, log_errno, with_errno, end_line}

-- What the line says: the text of an error stands behind the message if all of it fits into the buffer
-- of 2048 bytes, with a byte to spare, and else is left out.
abbrev pub body_of : List ℕ → List ℕ → List ℕ
body_of full more = if ltb (length full + length more) 2048 then full ++ more else full

-- The line: the first 2046 bytes of what it says, and '\n'.
abbrev pub line_of : List ℕ → List ℕ → List ℕ
line_of full more = take 2046 (body_of full more) ++ 10 ∷ []

take-take_le : (m n : ℕ) (xs : List ℕ) → m ≤ n → take m (take n xs) ≡ take m xs
take-take_le zero n xs h = refl
take-take_le (suc m) zero xs h = absurd (omega arith)
take-take_le (suc m) (suc n) [] h = refl
take-take_le (suc m) (suc n) (x ∷ xs) h = ap (◌∷◌ x) (take-take_le m n xs (omega arith))

not_leb : (a b : ℕ) → leb a b ≡ false → b < a
not_leb a b h = ground (arith, h)

not_ltb : (a b : ℕ) → ltb a b ≡ false → b ≤ a
not_ltb a b h = ground (arith, h)

is_not_ltb : (a b : ℕ) → b ≤ a → ltb a b ≡ false
is_not_ltb a b h = ground (arith, h)

-- The place for '\n' is the byte 2046 at the latest.
end_line-take : (text : List ℕ) → end_line text ≡ take 2046 text ++ 10 ∷ []
end_line-take text = elim (Bool-cases (leb 2047 (length text))) [
  | inl long ↦ rw long refl
  | inr fine ↦
      let lt = not_leb 2047 (length text) fine in
      rw fine (ap (λ xs. xs ++ 10 ∷ []) (sym (take-length 2046 text (omega (arith, lt)))))
]

-- What is added for an error.
abbrev pub error_text : Libc → ℕ → Option (List ℕ)
error_text c err =
    if err == 0
    then some []
    else left_str c err >>= λ left. some (left ++ (c.strerror err ++ bytes ") "))

pub with_errno-lem :
    (c : Libc) (err : ℕ) (more text : List ℕ)
    → error_text c err ≡ some more
    → with_errno c err text
      ≡ some (
          if err == 0
          then text
          else if ltb (length text + length more) max_error_str
          then text ++ more
          else text)
unfolding log_errno
with_errno-lem c err more text e = ground (arith, e)

-- The text so far with that of the error, if it fits.
abbrev pub with_more : ℕ → List ℕ → List ℕ → List ℕ
with_more err more text =
    if err == 0
    then text
    else if ltb (length text + length more) max_error_str
    then text ++ more
    else text

no_error :
    (c : Libc) (err : ℕ) (more : List ℕ)
    → (err == 0) ≡ true
    → error_text c err ≡ some more
    → more ≡ []
no_error c err more z e = ground (arith, z, e)

if_true : (b : Bool) (x y : List ℕ) → b ≡ true → (if b then x else y) ≡ x
if_true b x y e = rw e refl

if_false : (b : Bool) (x y : List ℕ) → b ≡ false → (if b then x else y) ≡ y
if_false b x y e = rw e refl

body_of-nothing : (full : List ℕ) → body_of full [] ≡ full
body_of-nothing full = elim (Bool-cases (ltb (length full + 0) 2048)) [
  | inl fits ↦ rw fits (append-nil full)
  | inr long ↦ rw long refl
]

-- The message is cut off at 2048 bytes before the error is added.
same_test :
    (full : List ℕ) (k : ℕ) → ltb (length (take 2048 full) + k) 2048 ≡ ltb (length full + k) 2048
same_test full k =
    let len = length-take 2048 full in
    elim (Bool-cases (ltb (length full + k) 2048)) [
      | inl fits ↦
          let lt = ltb→lt (length full + k) 2048 fits in
          lt→ltb (length (take 2048 full) + k) 2048 (omega (arith, len, lt)) ∙ sym fits
      | inr long ↦
          let le = not_ltb (length full + k) 2048 long in
          is_not_ltb (length (take 2048 full) + k) 2048 (omega (arith, len, le)) ∙ sym long
    ]

body-take :
    (full more : List ℕ)
    → let text = take 2048 full in
      take 2046 (if ltb (length text + length more) 2048 then text ++ more else text)
      ≡ take 2046 (body_of full more)
body-take full more = elim (Bool-cases (ltb (length full + length more) 2048)) [
  | inl fits ↦
      let lt = ltb→lt (length full + length more) 2048 fits in
      rw (same_test full (length more) ∙ fits, fits)
        (ap (λ zs. take 2046 (zs ++ more)) (take-length 2048 full (omega (arith, lt))))
  | inr long ↦
      rw (same_test full (length more) ∙ long, long) (take-take_le 2046 2048 full (omega arith))
]

pub with_more-line_of :
    (c : Libc) (err : ℕ) (full more : List ℕ)
    → error_text c err ≡ some more
    → end_line (with_more err more (take 2048 full)) ≡ line_of full more
with_more-line_of c err full more e =
    let text = take 2048 full in
    end_line-take (with_more err more text)
    ∙ ap (λ zs. zs ++ 10 ∷ [])
        (elim (Bool-cases (err == 0)) [
          | inl z ↦
              ap (take 2046) (if_true (err == 0) text _ z)
              ∙ take-take_le 2046 2048 full (omega arith)
              ∙ ap (take 2046)
                  (sym (body_of-nothing full) ∙ ap (body_of full) (sym (no_error c err more z e)))
          | inr err_set ↦ ap (take 2046) (if_false (err == 0) text _ err_set) ∙ body-take full more
        ])
