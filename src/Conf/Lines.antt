-- ===== src/Conf/Lines.antt =====
-- How Load reads one line of the configuration file.
use net_server.Base.{
  ℕ, suc, ◌-◌, ◌≤◌, ◌≡◌, refl, sym, ap, ◌∙◌, ◌≢◌, ◌⊎◌, inl, inr, true, false, none, some, ◌>>=◌,
  List, [], ◌∷◌, ◌++◌, arith, length, get_or, drop, replicate, All, All-append, All-replicate, leb,
  ◌==◌, length-append, Bool-cases, Option-cases,
}
use net_server.Strings.{strlen, rtrim}
use net_server.Strings.Trimming.{IsText}
use net_server.Conf.{
  Item, is_end, is_comment, copy_name, copy_content, conf_item, section_or_item, load_line,
}
use net_server.Conf.Pieces.{strip_end-strips, strchr-append, take-append, get_or-past}
use net_server.Conf.Fields.{
  Setting, IsSetting, Keeps, named, valued, core, line, valued_last, conf_item-Keeps,
}

first_byte : (t u : List ℕ) → 1 ≤ length t → get_or (t ++ u) 0 0 ≡ get_or t 0 0
first_byte [] u h = absurd (omega arith)
first_byte (b ∷ t) u h = refl

length-append_le : (t u : List ℕ) → 1 ≤ length t → 1 ≤ length (t ++ u)
length-append_le t u h = omega (arith, length-append t u)

nonempty : (n : ℕ) → 1 ≤ n → (n == 0) ≡ false
nonempty n h = ground arith

other_byte : (a b : ℕ) → a ≢ b → (a == b) ≡ false
other_byte a b h = ground (arith, h)

-- A line that is neither empty nor a comment is read without its end.
load_line-section :
    (t ending : List ℕ)
    → 1 ≤ length t
    → is_comment (get_or t 0 0) ≡ false
    → is_end (get_or t (length t - 1) 0) ≡ false
    → All (λ b. is_end b ≡ true) ending
    → load_line (t ++ ending) ≡ section_or_item t
unfolding load_line
load_line-section t ending one start last ends =
    let some_bytes = nonempty (length (t ++ ending)) (length-append_le t ending one) in
    let first = ap is_comment (first_byte t ending one) ∙ start in
    let stripped =
      strip_end-strips (length ending) (length (t ++ ending)) t ending refl (length-append t ending)
        ends last in
    rw (some_bytes, first, stripped) refl

-- The first '=' divides the line.
section_or_item-conf_item :
    (p q : List ℕ)
    → 1 ≤ length p
    → get_or p 0 0 ≢ b'['
    → All (λ b. b ≢ b'=') p
    → section_or_item (p ++ b'=' ∷ q)
      ≡ (conf_item (p ++ b'=' ∷ q) (length p) >>= λ item. some (item ∷ []))
unfolding section_or_item
section_or_item-conf_item p q one start plain =
    let some_bytes = nonempty (length (p ++ b'=' ∷ q)) (length-append_le p (b'=' ∷ q) one) in
    let first = ap (λ b. b == b'[') (first_byte p (b'=' ∷ q) one) ∙ other_byte _ b'[' start in
    rw (some_bytes, first, strchr-append p b'=' q plain) refl

core_last : (s : Setting) → IsSetting s → is_end (get_or (core s) (length (core s) - 1) 0) ≡ false
core_last s ok =
    let size = length-append (named s) (b'=' ∷ valued s) in
    let size_v = length-append (replicate s.after b' ') s.value in
    ap is_end (
      get_or-past (length (core s) - 1) (named s) (suc (length (valued s) - 1)) (b'=' ∷ valued s)
        (omega (arith, size, size_v, ok.value_some))
      ∙ valued_last s ok)
    ∙ ok.value_end

space_plain : ◌≢◌ {A = ℕ} b' ' b'='
space_plain = ground arith

-- Load finds the name and the value of a setting in its line: the spaces around both and the end of
-- the line are gone.
pub load_line-Keeps :
    (s : Setting)
    → IsSetting s
    → (item : Item) × (load_line (line s) ≡ some (item ∷ [])) × Keeps s item
load_line-Keeps s ok =
    let (item, found, keeps) = conf_item-Keeps s ok in
    let spaces = replicate s.before b' ' in
    let one = length-append_le s.name spaces ok.name_some in
    let first = first_byte s.name spaces ok.name_some in
    let first_core = first_byte (named s) (b'=' ∷ valued s) one ∙ first in
    let plain =
      All-append (λ b. b ≢ b'=') s.name spaces ok.name_plain
        (All-replicate (λ b. b ≢ b'=') s.before b' ' space_plain) in
    (
      item,
      load_line-section (core s) s.ending (length-append_le (named s) (b'=' ∷ valued s) one)
            (ap is_comment first_core ∙ ok.name_start) (core_last s ok) ok.ending_ends
          ∙ section_or_item-conf_item (named s) (valued s) one (λ e. ok.no_section (sym first ∙ e))
              plain
          ∙ rw found refl,
      keeps,
    )

-- strlen runs out of an array without NUL.
strlen-none : (t : List ℕ) → IsText t → strlen (t ++ []) ≡ none
strlen-none [] nz = refl
strlen-none (b ∷ t) (h, nz) = grind (arith, strlen-none t nz, h)

at_least : (n : ℕ) → 50 ≤ n → 1 ≤ n
at_least n h = omega (arith, h)

no_room : (n : ℕ) → 50 ≤ n → leb n 50 ≡ true → 50 - n ≡ 0
no_room n h le = ground (arith, h, le)

long_name :
    (p : List ℕ)
    → IsText p
    → 50 ≤ length p
    → (copy_name 50 p ≡ none)
      ⊎ ((array : List ℕ) × (copy_name 50 p ≡ some array) × (rtrim array ≡ none))
unfolding copy_name rtrim
long_name p nz long = elim (Bool-cases (leb (length p) 50)) [
  | inl fits ↦
      inr (p ++ [], rw (fits, no_room (length p) long fits) refl, rw (strlen-none p nz) refl)
  | inr over ↦ inl (rw over refl)
]

conf_item-overflows :
    (p q : List ℕ) → IsText p → 50 ≤ length p → conf_item (p ++ b'=' ∷ q) (length p) ≡ none
unfolding conf_item
conf_item-overflows p q nz long = rw (take-append p (b'=' ∷ q)) (elim (long_name p nz long) [
  | inl over ↦ rw over refl
  | inr (array, copied, runs_out) ↦
      rw copied (elim (Option-cases (copy_content 500 (drop (suc (length p)) (p ++ b'=' ∷ q)))) [
        | inl over ↦ rw over refl
        | inr (content, fits) ↦ rw (fits, runs_out) refl
      ])
])

-- A name of 50 bytes or more, with the spaces before '=', runs out of ItemName.
pub load_line-overflows :
    (p q ending : List ℕ)
    → IsText p
    → All (λ b. b ≢ b'=') p
    → 50 ≤ length p
    → is_comment (get_or p 0 0) ≡ false
    → get_or p 0 0 ≢ b'['
    → is_end (get_or (p ++ b'=' ∷ q) (length (p ++ b'=' ∷ q) - 1) 0) ≡ false
    → All (λ b. is_end b ≡ true) ending
    → load_line ((p ++ b'=' ∷ q) ++ ending) ≡ none
load_line-overflows p q ending nz plain long start section last ends =
    let one = at_least (length p) long in
    load_line-section (p ++ b'=' ∷ q) ending (length-append_le p (b'=' ∷ q) one)
      (ap is_comment (first_byte p (b'=' ∷ q) one) ∙ start) last ends
    ∙ section_or_item-conf_item p q one section plain
    ∙ rw (conf_item-overflows p q nz long) refl
