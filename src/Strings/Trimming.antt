-- ===== src/Strings/Trimming.antt =====
-- What Rtrim and Ltrim leave in the array.
use net_server.Base.{
  ℕ, zero, suc, ◌+◌, ◌-◌, ◌≤◌, ◌<◌, ◌≡◌, refl, sym, ap, ◌∙◌, ◌≢◌, inl, inr, none, some, List, [],
  ◌∷◌, ◌++◌, append_assoc, arith, length, get_or, set, take, replicate, All, All-append,
  All-replicate, leb, if◌then◌else◌, length-append, length-replicate, Bool-cases, tests,
}
use net_server.Strings.{strlen, c_str, rtrim_loop, rtrim, skip_spaces, copy_down, ltrim}

-- The bytes of a string: none is NUL.
abbrev pub IsText : List ℕ → Type 0
IsText = All (λ b. b ≢ 0)

pub strlen-append : (t r : List ℕ) → IsText t → strlen (t ++ 0 ∷ r) ≡ some (length t)
strlen-append [] r h = refl
strlen-append (b ∷ t) r (nz, h) = grind (arith, strlen-append t r h, nz)

pub c_str-append : (t r : List ℕ) → IsText t → c_str (t ++ 0 ∷ r) ≡ t
c_str-append [] r h = refl
c_str-append (b ∷ t) r (nz, h) = grind (arith, c_str-append t r h, nz)

pub get_or-append-length :
    (xs : List ℕ) (y d : ℕ) (ys : List ℕ) → get_or (xs ++ y ∷ ys) (length xs) d ≡ y
get_or-append-length [] y d ys = refl
get_or-append-length (x ∷ xs) y d ys = get_or-append-length xs y d ys

set-append-length :
    (xs : List ℕ) (y v : ℕ) (ys : List ℕ) → set (xs ++ y ∷ ys) (length xs) v ≡ xs ++ v ∷ ys
set-append-length [] y v ys = refl
set-append-length (x ∷ xs) y v ys = ap (◌∷◌ x) (set-append-length xs y v ys)

pub replicate-append : (n a : ℕ) (ys : List ℕ) → replicate n a ++ a ∷ ys ≡ a ∷ (replicate n a ++ ys)
replicate-append zero a ys = refl
replicate-append (suc n) a ys = ap (◌∷◌ a) (replicate-append n a ys)

-- The text ends with a byte that is no space, or is empty.
abbrev pub EndsWell : List ℕ → Type 0
EndsWell t = get_or t (length t - 1) 0 ≢ b' '

abbrev pub StartsWell : List ℕ → Type 0
StartsWell t = get_or t 0 0 ≢ b' '

get_or-append_lt :
    (xs : List ℕ) (i : ℕ) (ys : List ℕ) → i < length xs → get_or (xs ++ ys) i 0 ≡ get_or xs i 0
get_or-append_lt [] i ys h = absurd (omega arith)
get_or-append_lt (x ∷ xs) zero ys h = refl
get_or-append_lt (x ∷ xs) (suc i) ys h = get_or-append_lt xs i ys (omega arith)

last_place : (m : ℕ) (t : List ℕ) → suc m ≡ length t → m ≡ length t - 1
last_place m t e = omega (arith, e)

rtrim_loop-stops :
    (n : ℕ) (t r : List ℕ) → n ≡ length t → EndsWell t → rtrim_loop n (t ++ r) ≡ t ++ r
unfolding rtrim_loop
rtrim_loop-stops zero t r e h = refl
rtrim_loop-stops (suc m) t r e h =
    let same = get_or-append_lt t m r (omega (arith, e)) in
    let last = ap (λ i. get_or t i 0) (last_place m t e) in grind (arith, same, last, h)

-- The spaces at the end, seen from the last.
spaces-snoc :
    (t : List ℕ) (k : ℕ) (r : List ℕ)
    → t ++ (replicate (suc k) b' ' ++ r) ≡ (t ++ replicate k b' ') ++ b' ' ∷ r
spaces-snoc t k r =
    ap (t ++◌) (sym (replicate-append k b' ' r))
    ∙ sym (append_assoc t (replicate k b' ') (b' ' ∷ r))

last_space :
    (m k : ℕ) (t r : List ℕ)
    → m ≡ length t + k
    → (get_or (t ++ (replicate (suc k) b' ' ++ r)) m 0 ≡ b' ')
      × (set (t ++ (replicate (suc k) b' ' ++ r)) m 0 ≡ t ++ (replicate k b' ' ++ 0 ∷ r))
last_space m k t r e =
    let s = t ++ replicate k b' ' in
    let here =
      e
      ∙ ap (length t +◌) (sym (length-replicate k b' '))
      ∙ sym (length-append t (replicate k b' ')) in
    rw (spaces-snoc t k r, here)
      (
        get_or-append-length s b' ' 0 r,
        set-append-length s b' ' 0 r ∙ append_assoc t (replicate k b' ') (0 ∷ r),
      )

rtrim_loop-trims :
    (n k : ℕ) (t r : List ℕ)
    → n ≡ length t + k
    → EndsWell t
    → rtrim_loop n (t ++ (replicate k b' ' ++ 0 ∷ r)) ≡ t ++ 0 ∷ (replicate k 0 ++ r)
unfolding rtrim_loop
rtrim_loop-trims n zero t r e h = rtrim_loop-stops n t (0 ∷ r) (omega (arith, e)) h
rtrim_loop-trims zero (suc k) t r e h = absurd (omega (arith, e))
rtrim_loop-trims (suc m) (suc k) t r e h =
    let (hit, cleared) = last_space m k t (0 ∷ r) (omega (arith, e)) in
    rw (hit, cleared)
      (rtrim_loop-trims m k t (0 ∷ r) (omega (arith, e)) h
        ∙ ap (λ zs. t ++ 0 ∷ zs) (replicate-append k 0 r))

pub IsText-append : (t u : List ℕ) → IsText t → IsText u → IsText (t ++ u)
IsText-append = All-append (λ b. b ≢ 0)

pub IsText-replicate : (k a : ℕ) → a ≢ 0 → IsText (replicate k a)
IsText-replicate = All-replicate (λ b. b ≢ 0)

strlen_spaces :
    (k : ℕ) (t r : List ℕ)
    → IsText t
    → strlen (t ++ (replicate k b' ' ++ 0 ∷ r)) ≡ some (length t + k)
strlen_spaces k t r nz =
    let spaces = IsText-replicate k b' ' (ground arith) in
    let s = replicate k b' ' in
    ap strlen (sym (append_assoc t s (0 ∷ r)))
    ∙ strlen-append (t ++ s) r (IsText-append t s nz spaces)
    ∙ ap some (length-append t s ∙ ap (length t +◌) (length-replicate k b' '))

-- Rtrim cuts off the spaces at the end.
pub rtrim-trims :
    (k : ℕ) (t r : List ℕ)
    → IsText t
    → EndsWell t
    → rtrim (t ++ (replicate k b' ' ++ 0 ∷ r)) ≡ some (t ++ 0 ∷ (replicate k 0 ++ r))
unfolding rtrim
rtrim-trims k t r nz h =
    let size = strlen_spaces k t r nz in
    rw size (ap some (rtrim_loop-trims (length t + k) k t r refl h))

skip_spaces-skips : (k : ℕ) (t : List ℕ) → StartsWell t → skip_spaces (replicate k b' ' ++ t) ≡ t
unfolding skip_spaces
skip_spaces-skips zero [] h = refl
skip_spaces-skips zero (b ∷ t) h = ground (arith, h)
skip_spaces-skips (suc k) t h = skip_spaces-skips k t h

-- The copy moves as many bytes as the string has, and reads as many from where it copies.
copy_down-moves :
    (u r from : List ℕ)
    → IsText u
    → length u ≤ length from
    → copy_down (u ++ 0 ∷ r) from ≡ some (take (length u) from ++ 0 ∷ r)
unfolding copy_down
copy_down-moves [] r [] nz le = refl
copy_down-moves [] r (c ∷ from) nz le = refl
copy_down-moves (b ∷ u) r [] (h, nz) le = absurd (omega arith)
copy_down-moves (b ∷ u) r (c ∷ from) (h, nz) le =
    let rest = copy_down-moves u r from nz (omega arith) in grind (arith, rest, h)

copy_down-faults :
    (u r from : List ℕ) → IsText u → length from < length u → copy_down (u ++ 0 ∷ r) from ≡ none
unfolding copy_down
copy_down-faults [] r from nz lt = absurd (omega arith)
copy_down-faults (b ∷ u) r [] (h, nz) lt = ground (arith, h)
copy_down-faults (b ∷ u) r (c ∷ from) (h, nz) lt =
    let rest = copy_down-faults u r from nz (omega arith) in grind (arith, rest, h)

-- Before the copy: the array holds `k` spaces, one at least, and a text that is not empty.
ltrim-copy_down :
    (k : ℕ) (t r : List ℕ)
    → IsText t
    → StartsWell t
    → 1 ≤ length t
    → (let string = replicate (suc k) b' ' ++ (t ++ 0 ∷ r) in
        ltrim string ≡ copy_down string (t ++ 0 ∷ r))
unfolding ltrim
ltrim-copy_down k [] r nz h one = absurd (omega arith)
ltrim-copy_down k (b ∷ t) r (nz, nzs) h one =
    let spaces = IsText-replicate (suc k) b' ' (ground arith) in
    let s = replicate (suc k) b' ' in
    let size =
      ap strlen (sym (append_assoc s (b ∷ t) (0 ∷ r)))
      ∙ strlen-append (s ++ b ∷ t) r (IsText-append s (b ∷ t) spaces (nz, nzs)) in
    rw (size, skip_spaces-skips (suc k) (b ∷ (t ++ 0 ∷ r)) h) (ground (arith, nz))

pub take-past :
    (m : ℕ) (t : List ℕ) (n : ℕ) (ys : List ℕ)
    → m ≡ length t + n
    → take m (t ++ ys) ≡ t ++ take n ys
take-past m [] n ys e = ap (λ k. take k ys) (omega (arith, e))
take-past zero (b ∷ t) n ys e = absurd (omega (arith, e))
take-past (suc m) (b ∷ t) n ys e = ap (◌∷◌ b) (take-past m t n ys (omega (arith, e)))

abbrev spaces_before : ℕ → List ℕ
spaces_before k = replicate (suc k) b' '

-- Ltrim moves the text to the start of the array. It reads as far behind the NUL as spaces were
-- before the text, less one: in an array that ends sooner it leaves the array.
pub ltrim-trims :
    (k : ℕ) (t r : List ℕ)
    → IsText t
    → StartsWell t
    → 1 ≤ length t
    → ltrim (replicate (suc k) b' ' ++ (t ++ 0 ∷ r))
      ≡ (if leb k (length r) then some (t ++ 0 ∷ (take k r ++ 0 ∷ r)) else none)
ltrim-trims k t r nz h one =
    let spaces = IsText-replicate (suc k) b' ' (ground arith) in
    let s = spaces_before k in
    let nzs = IsText-append s t spaces nz in
    let spaces_length = length-replicate {A = ℕ} (suc k) b' ' in
    let whole = length-append s t in
    let from = length-append t (0 ∷ r) in
    let start =
      ltrim-copy_down k t r nz h one
      ∙ ap (λ u. copy_down u (t ++ 0 ∷ r)) (sym (append_assoc s t (0 ∷ r))) in
    elim (Bool-cases (leb k (length r))) [
      | inl fits ↦ rw fits (
          start
          ∙ copy_down-moves (s ++ t) r (t ++ 0 ∷ r) nzs
              (omega (tests, whole, spaces_length, from, fits))
          ∙ ap (λ zs. some (zs ++ 0 ∷ r))
              (take-past (length (s ++ t)) t (suc k) (0 ∷ r) (omega (arith, whole, spaces_length)))
          ∙ ap some (append_assoc t (0 ∷ take k r) (0 ∷ r)))
      | inr short ↦ rw short (
          start
          ∙ copy_down-faults (s ++ t) r (t ++ 0 ∷ r) nzs
              (ground (arith, whole, spaces_length, from, short)))
    ]

pub ltrim-keeps : (t r : List ℕ) → IsText t → StartsWell t → ltrim (t ++ 0 ∷ r) ≡ some (t ++ 0 ∷ r)
unfolding ltrim
ltrim-keeps [] r nz h = refl
ltrim-keeps (b ∷ t) r nz h = let size = strlen-append (b ∷ t) r nz in rw size (ground (arith, h))
