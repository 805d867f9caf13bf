-- ===== src/Recv/Buffer.antt =====
-- `write_at`: what a buffer holds after `recv` has filled part of it.
use net_server.Base.{
  ℕ, zero, suc, ◌+◌, ◌≤◌, ◌≡◌, refl, ap, List, [], ◌∷◌, ◌++◌, arith, length, take, get_or,
}
use net_server.Types.{pkg_len}
use net_server.Recv.{write_at, overlay}

length-overlay : (bs xs : List ℕ) → length (overlay xs bs) ≡ length xs
length-overlay bs [] = refl
length-overlay [] (x ∷ xs) = refl
length-overlay (b ∷ bs) (x ∷ xs) = ap suc (length-overlay bs xs)

take-overlay : (bs xs : List ℕ) → length bs ≤ length xs → take (length bs) (overlay xs bs) ≡ bs
take-overlay [] [] h = refl
take-overlay (b ∷ bs) [] h = absurd (omega arith)
take-overlay [] (x ∷ xs) h = refl
take-overlay (b ∷ bs) (x ∷ xs) h = ap (◌∷◌ b) (take-overlay bs xs (omega arith))

pub length-write_at : (n : ℕ) (bs xs : List ℕ) → length (write_at n bs xs) ≡ length xs
unfolding write_at
length-write_at zero bs xs = length-overlay bs xs
length-write_at (suc n) bs [] = refl
length-write_at (suc n) bs (x ∷ xs) = ap suc (length-write_at n bs xs)

-- The bytes before the offset stay, and the new ones follow them.
pub take-write_at :
    (n k : ℕ) (bs xs : List ℕ)
    → k ≡ n + length bs
    → k ≤ length xs
    → take k (write_at n bs xs) ≡ take n xs ++ bs
unfolding write_at
take-write_at zero k bs xs e h =
    let e' : k ≡ length bs = omega arith in rw e' (take-overlay bs xs (omega arith))
take-write_at (suc n) zero bs xs e h = absurd (omega arith)
take-write_at (suc n) (suc k) bs [] e h = absurd (omega arith)
take-write_at (suc n) (suc k) bs (x ∷ xs) e h =
    ap (◌∷◌ x) (take-write_at n k bs xs (omega arith) (omega arith))

get_or-take : (i k : ℕ) (xs : List ℕ) → suc i ≤ k → get_or (take k xs) i 0 ≡ get_or xs i 0
get_or-take i zero xs h = absurd (omega arith)
get_or-take i (suc k) [] h = refl
get_or-take zero (suc k) (x ∷ xs) h = refl
get_or-take (suc i) (suc k) (x ∷ xs) h = get_or-take i k xs (omega arith)

-- The length field is in the first two bytes.
pub pkg_len-take : (k : ℕ) (xs : List ℕ) → 2 ≤ k → pkg_len (take k xs) ≡ pkg_len xs
pkg_len-take k xs h =
    omega (arith, get_or-take 0 k xs (omega arith), get_or-take 1 k xs (omega arith))

get_or-append : (i : ℕ) (xs ys : List ℕ) → suc i ≤ length xs → get_or (xs ++ ys) i 0 ≡ get_or xs i 0
get_or-append i [] ys h = absurd (omega arith)
get_or-append zero (x ∷ xs) ys h = refl
get_or-append (suc i) (x ∷ xs) ys h = get_or-append i xs ys (omega arith)

pub pkg_len-append : (xs ys : List ℕ) → 2 ≤ length xs → pkg_len (xs ++ ys) ≡ pkg_len xs
pkg_len-append xs ys h =
    omega (arith, get_or-append 0 xs ys (omega arith), get_or-append 1 xs ys (omega arith))
