-- ===== src/Conf/Fields.antt =====
-- The two arrays of an item, trimmed.
use net_server.Base.{
  ℕ, zero, suc, ◌+◌, ◌-◌, ◌*◌, ◌≤◌, ◌≡◌, refl, sym, ap, ◌∙◌, ◌≢◌, true, false, Option, some, List,
  ◌∷◌, ◌++◌, append_assoc, arith, length, get_or, take, replicate, All, length-append,
  length-replicate,
}
use net_server.Strings.{c_str, rtrim, ltrim}
use net_server.Strings.Trimming.{
  IsText, StartsWell, EndsWell, rtrim-trims, ltrim-trims, ltrim-keeps, IsText-append,
  IsText-replicate, c_str-append,
}
use net_server.Conf.{Item, is_end, is_comment, copy_name, copy_content, conf_item}
use net_server.Conf.Pieces.{
  copy_name-fits, copy_content-fits, take-append, drop-append, get_or-past, le→leb,
}

-- A setting as it stands in the file: spaces around '=', and what ends the line.
pub record Setting : Type 0 where
  pub name : List ℕ
  pub before : ℕ
  pub after : ℕ
  pub value : List ℕ
  pub ending : List ℕ

-- The two sides of '='.
abbrev pub named : Setting → List ℕ
named s = s.name ++ replicate s.before b' '

abbrev pub valued : Setting → List ℕ
valued s = replicate s.after b' ' ++ s.value

-- The line without its end.
abbrev pub core : Setting → List ℕ
core s = named s ++ b'=' ∷ valued s

abbrev pub line : Setting → List ℕ
line s = core s ++ s.ending

-- A setting that Load can keep: the name has neither '=' nor a space at its ends and starts no comment
-- or section, the value has no space or end of line at its ends and is not empty, and both are short
-- enough. The spaces before the value count twice.
pub record IsSetting (s : Setting) : Type 0 where
  pub name_text : IsText s.name
  pub name_plain : All (λ b. b ≢ b'=') s.name
  pub name_some : 1 ≤ length s.name
  pub name_start : is_comment (get_or s.name 0 0) ≡ false
  pub no_section : get_or s.name 0 0 ≢ b'['
  pub name_end : EndsWell s.name
  pub value_text : IsText s.value
  pub value_some : 1 ≤ length s.value
  pub value_start : StartsWell s.value
  pub value_end : is_end (get_or s.value (length s.value - 1) 0) ≡ false
  pub ending_ends : All (λ b. is_end b ≡ true) s.ending
  pub name_short : length s.name + s.before ≤ 49
  pub value_short : 2 * s.after + length s.value ≤ 499

-- What an item says of a setting.
pub record Keeps (s : Setting) (item : Item) : Type 0 where
  pub same_name : c_str item.item_name ≡ s.name
  pub same_value : c_str item.item_content ≡ s.value

-- An array that a text is copied into, and what Rtrim and Ltrim make of it.
record Field (copied : Option (List ℕ)) (text : List ℕ) : Type 0 where
  array : List ℕ
  trimmed : List ℕ
  rest : List ℕ
  is_copied : copied ≡ some array
  rtrimmed : rtrim array ≡ some trimmed
  ltrimmed : ltrim trimmed ≡ some (text ++ 0 ∷ rest)

no_space_start : (b : ℕ) → is_comment b ≡ false → b ≢ b' '
no_space_start b h e = ground (arith, h, e)

no_space_end : (b : ℕ) → is_end b ≡ false → b ≢ b' '
no_space_end b h e = ground (arith, h, e)

named-Field : (s : Setting) → IsSetting s → Field (copy_name 50 (named s)) s.name
named-Field s ok =
    let m = 49 - (length s.name + s.before) in
    let size = length-append s.name (replicate s.before b' ') in
    let spaces = length-replicate {A = ℕ} s.before b' ' in
    let copied = copy_name-fits 50 (named s) m (omega (arith, size, spaces, ok.name_short)) in
    let zeros = replicate s.before 0 ++ replicate m 0 in
    record {
      array = s.name ++ (replicate s.before b' ' ++ 0 ∷ replicate m 0);
      trimmed = s.name ++ 0 ∷ zeros;
      rest = zeros;
      is_copied =
          copied ∙ ap some (append_assoc s.name (replicate s.before b' ') (0 ∷ replicate m 0));
      rtrimmed = rtrim-trims s.before s.name (replicate m 0) ok.name_text ok.name_end;
      ltrimmed = ltrim-keeps s.name zeros ok.name_text (no_space_start _ ok.name_start);
    }

spaces_gone :
    (k : ℕ) (v : List ℕ) (m : ℕ)
    → IsText v
    → StartsWell v
    → 1 ≤ length v
    → k ≤ suc m
    → (r : List ℕ) × (ltrim ((replicate k b' ' ++ v) ++ 0 ∷ replicate m 0) ≡ some (v ++ 0 ∷ r))
spaces_gone zero v m text start one le = (replicate m 0, ltrim-keeps v (replicate m 0) text start)
spaces_gone (suc k) v m text start one le =
    let fits =
      le→leb k (length {A = ℕ} (replicate m 0)) (omega (arith, length-replicate {A = ℕ} m 0)) in
    (
      take k (replicate m 0) ++ 0 ∷ replicate m 0,
      ap ltrim (append_assoc (replicate (suc k) b' ') v (0 ∷ replicate m 0))
          ∙ ltrim-trims k v (replicate m 0) text start one
          ∙ rw fits refl,
    )

pub valued_last :
    (s : Setting)
    → IsSetting s
    → get_or (valued s) (length (valued s) - 1) 0 ≡ get_or s.value (length s.value - 1) 0
valued_last s ok =
    let size = length-append (replicate s.after b' ') s.value in
    let spaces = length-replicate {A = ℕ} s.after b' ' in
    get_or-past (length (valued s) - 1) (replicate s.after b' ') (length s.value - 1) s.value
      (omega (arith, size, spaces, ok.value_some))

valued-EndsWell : (s : Setting) → IsSetting s → EndsWell (valued s)
valued-EndsWell s ok = λ e. no_space_end _ ok.value_end (sym (valued_last s ok) ∙ e)

valued-Field : (s : Setting) → IsSetting s → Field (copy_content 500 (valued s)) s.value
valued-Field s ok =
    let m = 499 - (s.after + length s.value) in
    let size = length-append (replicate s.after b' ') s.value in
    let spaces = length-replicate {A = ℕ} s.after b' ' in
    let text =
      IsText-append (replicate s.after b' ') s.value (IsText-replicate s.after b' ' (ground arith))
        ok.value_text in
    let (r, gone) =
      spaces_gone s.after s.value m ok.value_text ok.value_start ok.value_some
        (omega (arith, ok.value_short, ok.value_some)) in
    record {
      array = valued s ++ 0 ∷ replicate m 0;
      trimmed = valued s ++ 0 ∷ replicate m 0;
      rest = r;
      is_copied =
          copy_content-fits 500 (valued s) m
            (omega (arith, size, spaces, ok.value_short, ok.value_some));
      rtrimmed = rtrim-trims 0 (valued s) (replicate m 0) text (valued-EndsWell s ok);
      ltrimmed = gone;
    }

pub conf_item-Keeps :
    (s : Setting)
    → IsSetting s
    → (item : Item) × (conf_item (core s) (length (named s)) ≡ some item) × Keeps s item
unfolding conf_item
conf_item-Keeps s ok =
    let n = named-Field s ok in
    let v = valued-Field s ok in
    (
      record { item_name = s.name ++ 0 ∷ n.rest; item_content = s.value ++ 0 ∷ v.rest },
      rw
          (
            take-append (named s) (b'=' ∷ valued s),
            drop-append (named s) b'=' (valued s),
            n.is_copied,
            v.is_copied,
            n.rtrimmed,
            n.ltrimmed,
            v.rtrimmed,
            v.ltrimmed,
          )
          refl,
      record {
        same_name = c_str-append s.name n.rest ok.name_text;
        same_value = c_str-append s.value v.rest ok.value_text;
      },
    )
