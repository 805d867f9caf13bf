-- ===== src/Conf/Pieces.antt =====
-- The steps of Load on a line: its end is cut off, and `=` divides it.
use net_server.Base.{
  ℕ, zero, suc, ◌+◌, ◌-◌, ◌≤◌, ◌<◌, ◌≡◌, refl, ap, ◌∙◌, ◌≢◌, true, false, some, List, [], ◌∷◌, ◌++◌,
  append-nil, arith, length, get_or, take, drop, replicate, All, leb, lt→ltb, length-take,
}
use net_server.Strings.Trimming.{take-past}
use net_server.Conf.{is_end, strip_end, strchr, copy_name, copy_content}

pred_suc : (n : ℕ) → n ≡ suc n - 1
pred_suc n = omega arith

plus_zero : (n m : ℕ) → n ≡ m + 0 → n ≡ m
plus_zero n m e = omega (arith, e)

strip_end-stops :
    (n : ℕ) (t : List ℕ) → n ≡ length t → is_end (get_or t (n - 1) 0) ≡ false → strip_end n t ≡ t
unfolding strip_end
strip_end-stops zero t e h = refl
strip_end-stops (suc n) t e h =
    let last = ap (λ i. is_end (get_or t i 0)) (pred_suc n) ∙ h in rw last refl

All-get_or :
    (u : List ℕ) (i : ℕ)
    → All (λ b. is_end b ≡ true) u
    → i < length u
    → is_end (get_or u i 0) ≡ true
All-get_or [] i all lt = absurd (omega arith)
All-get_or (b ∷ u) zero (h, all) lt = h
All-get_or (b ∷ u) (suc i) (h, all) lt = All-get_or u i all (omega arith)

All-take :
    (k : ℕ) (u : List ℕ) → All (λ b. is_end b ≡ true) u → All (λ b. is_end b ≡ true) (take k u)
All-take zero u all = tt
All-take (suc k) [] all = tt
All-take (suc k) (b ∷ u) (h, all) = (h, All-take k u all)

pub get_or-past :
    (m : ℕ) (t : List ℕ) (k : ℕ) (u : List ℕ)
    → m ≡ length t + k
    → get_or (t ++ u) m 0 ≡ get_or u k 0
get_or-past m [] k u e = ap (λ i. get_or u i 0) (omega (arith, e))
get_or-past zero (b ∷ t) k u e = absurd (omega (arith, e))
get_or-past (suc m) (b ∷ t) k u e = get_or-past m t k u (omega (arith, e))

-- The loop takes away the whole end of the line, and nothing else.
pub strip_end-strips :
    (k n : ℕ) (t u : List ℕ)
    → k ≡ length u
    → n ≡ length t + k
    → All (λ b. is_end b ≡ true) u
    → is_end (get_or t (length t - 1) 0) ≡ false
    → strip_end n (t ++ u) ≡ t
unfolding strip_end
strip_end-strips zero n t [] ku e all h =
    let size = plus_zero n (length t) e in
    ap (strip_end n) (append-nil t)
    ∙ strip_end-stops n t size (ap (λ i. is_end (get_or t (i - 1) 0)) size ∙ h)
strip_end-strips zero n t (b ∷ u) ku e all h = absurd (omega (arith, ku))
strip_end-strips (suc k) zero t u ku e all h = absurd (omega (arith, e))
strip_end-strips (suc k) (suc m) t u ku e all h =
    let hit = get_or-past m t k u (omega (arith, e)) in
    let end = ap is_end hit ∙ All-get_or u k all (omega (arith, ku)) in
    let cut = take-past m t k u (omega (arith, e)) in
    let size = length-take k u in
    rw (end, cut)
      (strip_end-strips k m t (take k u) (omega (arith, size, ku)) (omega (arith, e))
        (All-take k u all) h)

pub strchr-append :
    (t : List ℕ) (c : ℕ) (r : List ℕ) → All (λ b. b ≢ c) t → strchr (t ++ c ∷ r) c ≡ some (length t)
unfolding strchr
strchr-append [] c r h = ground arith
strchr-append (b ∷ t) c r (ne, h) = grind (arith, strchr-append t c r h, ne)

room : (size n m : ℕ) → n + suc m ≡ size → size - n ≡ suc m
room size n m e = omega (arith, e)

pub le→leb : (a b : ℕ) → a ≤ b → leb a b ≡ true
le→leb a b h = ground arith

pub copy_name-fits :
    (size : ℕ) (t : List ℕ) (m : ℕ)
    → length t + suc m ≡ size
    → copy_name size t ≡ some (t ++ 0 ∷ replicate m 0)
unfolding copy_name
copy_name-fits size t m e =
    let le = le→leb (length t) size (omega (arith, e)) in
    let rest = room size (length t) m e in rw (le, rest) refl

pub take-append : (t r : List ℕ) → take (length t) (t ++ r) ≡ t
take-append [] r = refl
take-append (b ∷ t) r = ap (◌∷◌ b) (take-append t r)

pub drop-append : (t : List ℕ) (c : ℕ) (r : List ℕ) → drop (suc (length t)) (t ++ c ∷ r) ≡ r
drop-append [] c r = refl
drop-append (b ∷ t) c r = drop-append t c r

pub copy_content-fits :
    (size : ℕ) (t : List ℕ) (m : ℕ)
    → length t + suc m ≡ size
    → copy_content size t ≡ some (t ++ 0 ∷ replicate m 0)
unfolding copy_content
copy_content-fits size t m e =
    let lt = lt→ltb (length t) size (omega (arith, e)) in
    let rest = room size (length t) m e in rw (lt, rest) refl
