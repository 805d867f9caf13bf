-- ===== src/Title/Named.antt =====
-- The title that ngx_setproctitle leaves, and that of the master process.
use net_server.Base.{
  ℕ, ◌+◌, ◌-◌, ◌≤◌, ◌<◌, ◌≡◌, refl, sym, ap, ◌∙◌, inl, inr, true, false, Option, none, some, ◌>>=◌,
  List, [], ◌∷◌, ◌&&◌, ◌++◌, arith, length, length-append, length-replicate, length-take,
  length-drop, append_assoc, append-nil, take, drop, take-append-drop, ltb, ltb→lt, lt→ltb, leb,
  Bool-cases, if◌then◌else◌,
}
use net_server.Base.Text.{bytes}
use net_server.Title.{
  needed, nuls, write_at, strcpy, setproctitle, strcat, strcat_all, master_title, name_master,
}
use net_server.Title.Writing.{write_at-replaces}

-- The strings one after the other.
abbrev pub joined : List (List ℕ) → List ℕ
joined [] = []
joined (a ∷ argv) = a ++ joined argv

length-nuls : (n : ℕ) → length (nuls n) ≡ n
length-nuls n = length-replicate n 0

not_leb : (a b : ℕ) → leb a b ≡ false → b < a
not_leb a b h = ground (arith, h)

is_leb : (a b : ℕ) → leb a b ≡ true → a ≤ b
is_leb a b h = ground (arith, h)

-- ngx_setproctitle leaves a title alone for which there is no room, with its NUL, in the memory of
-- the arguments and the environment. Any other title is all that this memory then holds: the title, and
-- NULs up to the end, with no write behind it, and g_os_argv ends after its first pointer. The memory is as long as the program has counted.
pub setproctitle-names :
    (esy : ℕ) (title argv mem : List ℕ)
    → length mem ≡ esy
    → setproctitle esy title argv mem
      ≡ some (
          if leb esy (length title)
          then (argv, mem)
          else (take 1 argv, title ++ nuls (esy - length title)))
unfolding setproctitle
setproctitle-names esy title argv mem size = elim (Bool-cases (leb esy (length title))) [
  | inl long ↦ rw long refl
  | inr fits ↦
      let lt = not_leb esy (length title) fits in
      let n = length title + 1 in
      let k = esy - length title in
      let bs = title ++ 0 ∷ [] in
      let rest = drop n mem in
      let first : strcpy 0 title mem ≡ some (bs ++ rest) =
        ap (write_at 0 bs) (sym (take-append-drop n mem))
        ∙ write_at-replaces [] bs (take n mem) rest
            (omega (arith, length-take n mem, length-append title (0 ∷ []))) in
      let filled : write_at (length title) (nuls k) (bs ++ rest) ≡ some (title ++ nuls k) =
        ap (write_at (length title) (nuls k))
          (append_assoc title (0 ∷ []) rest ∙ ap (λ zs. title ++ zs) (sym (append-nil (0 ∷ rest))))
        ∙ write_at-replaces title (nuls k) (0 ∷ rest) []
            (omega (arith, length-drop n mem, length-nuls k))
        ∙ ap (λ zs. some (title ++ zs)) (append-nil (nuls k)) in
      rw (fits, first) (ap (λ (o : Option (List ℕ)). o >>= λ zs. some (take 1 argv, zs)) filled)
]

strcat-fits : (text s : List ℕ) → length text + length s < 1000 → strcat text s ≡ some (text ++ s)
strcat-fits text s lt = rw (lt→ltb (length text + length s) 1000 lt) refl

length-joined : (argv : List (List ℕ)) → length (joined argv) ≤ needed argv
length-joined [] = omega arith
length-joined (a ∷ argv) = omega (arith, length-append a (joined argv), length-joined argv)

strcat_all-joins :
    (argv : List (List ℕ)) (text : List ℕ)
    → length text + length (joined argv) < 1000
    → strcat_all argv text ≡ some (text ++ joined argv)
unfolding strcat_all
strcat_all-joins [] text lt = ap some (sym (append-nil text))
strcat_all-joins (a ∷ argv) text lt =
    let len = length-append a (joined argv) in
    let one = strcat-fits text a (omega (arith, lt, len)) in
    ap (λ (o : Option (List ℕ)). o >>= strcat_all argv) one
    ∙ strcat_all-joins argv (text ++ a) (omega (arith, lt, len, length-append text a))
    ∙ ap some (append_assoc text a (joined argv))

swapped :
    (a b : ℕ) (x y : List ℕ × List ℕ)
    → ◌≡◌ {A = Option (List ℕ × List ℕ)}
        (some (if leb a b then x else y))
        (some (if ltb b a then y else x))
swapped a b x y = ground arith

-- The array of 1000 bytes has room for the title, with its NUL, whenever it is made.
master_title-named :
    (argv : List (List ℕ))
    → master_title (needed argv) argv
      ≡ some (
          if ltb (15 + needed argv) 1000
          then some (bytes "master process " ++ joined argv)
          else none)
unfolding master_title
master_title-named argv = elim (Bool-cases (ltb (15 + needed argv) 1000)) [
  | inr long ↦ rw long refl
  | inl short ↦
      let lt = ltb→lt (15 + needed argv) 1000 short in
      rw short (
        ap (λ (o : Option (List ℕ)). o >>= λ title. some (some title))
          (strcat_all-joins argv (bytes "master process ") (omega (arith, lt, length-joined argv))))
]

-- The title that the master process wants: "master process " and its arguments, one after the other.
abbrev pub wanted_title : List (List ℕ) → List ℕ
wanted_title argv = bytes "master process " ++ joined argv

-- The master process takes its title, "master process " and its arguments one after the other, if the
-- arguments are short enough for the array of 1000 bytes and the arguments and the environment have a
-- byte more than the title: then the title, and NULs up to the end, are all that their memory holds.
-- Otherwise nothing changes. No write goes behind the array or that memory. The memory is as long as
-- main has counted.
pub name_master-named :
    (argv environ : List (List ℕ)) (pointers mem : List ℕ)
    → length mem ≡ needed argv + needed environ
    → let title = wanted_title argv in
      let room = needed argv + needed environ in
      name_master (needed argv) (needed environ) argv pointers mem
      ≡ some (
          if ltb (15 + needed argv) 1000 && ltb (length title) room
          then (take 1 pointers, title ++ nuls (room - length title))
          else (pointers, mem))
unfolding name_master
name_master-named argv environ pointers mem size = elim (Bool-cases (ltb (15 + needed argv) 1000)) [
  | inr long ↦ rw (master_title-named argv, long) refl
  | inl short ↦
      rw (master_title-named argv, short)
        (setproctitle-names (needed argv + needed environ) (wanted_title argv) pointers mem size
          ∙ swapped (needed argv + needed environ) (length (wanted_title argv)) _ _)
]
