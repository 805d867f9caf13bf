-- ===== src/Title/Moved.antt =====
-- The environment after ngx_init_setproctitle.
use net_server.Base.{
  ℕ, zero, suc, ◌+◌, ◌≡◌, refl, sym, ap, subst, ◌∙◌, some, List, [], ◌∷◌, ◌++◌, All, arith, length,
  length-append, length-replicate, append_assoc, drop, map,
}
use net_server.Title.{needed, nuls, write_at, string_of, move_loop, init_setproctitle}
use net_server.Title.Writing.{IsString, write_at-replaces, string_of-append}

-- The strings, each with its NUL.
abbrev packed : List (List ℕ) → List ℕ
packed [] = []
packed (e ∷ es) = (e ++ 0 ∷ []) ++ packed es

-- Where each of them starts.
abbrev offsets : ℕ → List (List ℕ) → List ℕ
offsets n [] = []
offsets n (e ∷ es) = n ∷ offsets (n + (length e + 1)) es

length-nuls : (n : ℕ) → length (nuls n) ≡ n
length-nuls n = length-replicate n 0

nuls-split : (m n : ℕ) → nuls (m + n) ≡ nuls m ++ nuls n
nuls-split zero n = let e : 0 + n ≡ n = omega arith in ap nuls e
nuls-split (suc m) n =
    let e : suc m + n ≡ suc (m + n) = omega arith in ap nuls e ∙ ap (◌∷◌ 0) (nuls-split m n)

length-packed : (es : List (List ℕ)) → length (packed es) ≡ needed es
length-packed [] = refl
length-packed (e ∷ es) =
    omega
      (arith, length-append (e ++ 0 ∷ []) (packed es), length-append e (0 ∷ []), length-packed es)

move_loop-packs :
    (es : List (List ℕ)) (pre : List ℕ)
    → move_loop es (length pre) (pre ++ nuls (needed es))
      ≡ some (offsets (length pre) es, pre ++ packed es)
unfolding move_loop
move_loop-packs [] pre = refl
move_loop-packs (e ∷ es) pre =
    let bs = e ++ 0 ∷ [] in
    let size : length bs ≡ length e + 1 = length-append e (0 ∷ []) in
    let next = pre ++ bs in
    let wrote : write_at (length pre) bs (pre ++ nuls (needed (e ∷ es)))
        ≡ some (next ++ nuls (needed es)) =
      ap (λ zs. write_at (length pre) bs (pre ++ zs)) (nuls-split (length e + 1) (needed es))
      ∙ write_at-replaces pre bs (nuls (length e + 1)) (nuls (needed es))
          (length-nuls (length e + 1) ∙ sym size)
      ∙ ap some (sym (append_assoc pre bs (nuls (needed es)))) in
    let at : length next ≡ length pre + (length e + 1) =
      omega (arith, length-append pre bs, size) in
    let ih = move_loop-packs es next in
    let ih' : move_loop es (length pre + (length e + 1)) (next ++ nuls (needed es))
        ≡ some (offsets (length pre + (length e + 1)) es, next ++ packed es) =
      subst
        (λ n. move_loop es n (next ++ nuls (needed es)) ≡ some (offsets n es, next ++ packed es)) at
        ih in
    rw (wrote, ih')
      (ap (λ zs. some (length pre ∷ offsets (length pre + (length e + 1)) es, zs))
        (append_assoc pre bs (packed es)))

drop-length_append : (pre rest : List ℕ) → drop (length pre) (pre ++ rest) ≡ rest
drop-length_append [] rest = refl
drop-length_append (x ∷ pre) rest = drop-length_append pre rest

strings-at :
    (es : List (List ℕ)) (pre : List ℕ)
    → All IsString es
    → map (λ p. string_of (drop p (pre ++ packed es))) (offsets (length pre) es) ≡ es
strings-at [] pre ok = refl
strings-at (e ∷ es) pre (s, ok) =
    let bs = e ++ 0 ∷ [] in
    let here : string_of (drop (length pre) (pre ++ packed (e ∷ es))) ≡ e =
      ap string_of (drop-length_append pre (packed (e ∷ es)))
      ∙ ap string_of (append_assoc e (0 ∷ []) (packed es))
      ∙ string_of-append e (packed es) s in
    let at : length (pre ++ bs) ≡ length pre + (length e + 1) =
      omega (arith, length-append pre bs, length-append e (0 ∷ [])) in
    let ih = strings-at es (pre ++ bs) ok in
    let tail : map (λ p. string_of (drop p (pre ++ packed (e ∷ es))))
          (offsets (length pre + (length e + 1)) es)
        ≡ es =
      ap (λ n. map (λ p. string_of (drop p (pre ++ packed (e ∷ es)))) (offsets n es)) (sym at)
      ∙ ap (λ zs. map (λ p. string_of (drop p zs)) (offsets (length (pre ++ bs)) es))
          (sym (append_assoc pre bs (packed es)))
      ∙ ih in
    ap
      (λ x.
        x
        ∷ map (λ p. string_of (drop p (pre ++ packed (e ∷ es))))
            (offsets (length pre + (length e + 1)) es))
      here
    ∙ ap (◌∷◌ e) tail

-- ngx_init_setproctitle moves the environment: it never writes past the new memory, fills all of it,
-- and afterwards each pointer of environ leads to the string that it led to before. The strings have
-- no NUL.
pub init_setproctitle-moves :
    (environ : List (List ℕ))
    → All IsString environ
    → (pointers mem : List ℕ) × (init_setproctitle environ ≡ some (pointers, mem))
      × (length mem ≡ needed environ)
      × (map (λ p. string_of (drop p mem)) pointers ≡ environ)
unfolding init_setproctitle
init_setproctitle-moves environ ok = (
  offsets 0 environ,
  packed environ,
  move_loop-packs environ [],
  length-packed environ,
  strings-at environ [] ok,
)
