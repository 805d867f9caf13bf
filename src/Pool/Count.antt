-- ===== src/Pool/Count.antt =====
-- How often an address stands in a list.
use net_server.Base.{
  ℕ, ◌+◌, ◌<◌, ◌≡◌, refl, true, false, List, [], ◌∷◌, ◌++◌, arith, elem, ◌==◌, if◌then◌else◌,
}

abbrev pub occurs : ℕ → List ℕ → ℕ
occurs a [] = 0
occurs a (x ∷ xs) = (if x == a then 1 else 0) + occurs a xs

pub occurs-append : (a : ℕ) (xs ys : List ℕ) → occurs a (xs ++ ys) ≡ occurs a xs + occurs a ys
occurs-append a [] ys = omega arith
occurs-append a (x ∷ xs) ys = omega (arith, occurs-append a xs ys)

pub elem-false : (a : ℕ) (xs : List ℕ) → elem a xs ≡ false → occurs a xs ≡ 0
elem-false a [] h = refl
elem-false a (x ∷ xs) h = ground (arith, elem-false a xs)

pub elem-true : (a : ℕ) (xs : List ℕ) → elem a xs ≡ true → 0 < occurs a xs
elem-true a [] h = cc
elem-true a (x ∷ xs) h = ground (arith, elem-true a xs)

pub elem-append_self : (a : ℕ) (xs : List ℕ) → elem a (xs ++ a ∷ []) ≡ true
elem-append_self a [] = ground arith
elem-append_self a (x ∷ xs) = ground (arith, elem-append_self a xs)
