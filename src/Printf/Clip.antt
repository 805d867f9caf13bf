-- ===== src/Printf/Clip.antt =====
-- ngx_vslprintf writes what the format says and stops at the end of the buffer.
use net_server.Base.{
  ◌>>=◌, ℕ, ◌≤◌, ◌<◌, ◌≡◌, refl, sym, ap, ◌∙◌, inl, inr, Bool, true, false, Option, none, some,
  List, [], ◌∷◌, ◌++◌, append-nil, append_assoc, arith, length, take, take-length, length-take,
  length-append, ltb, ◌==◌, Bool-cases, if◌then◌else◌,
}
use net_server.Printf.{
  Item, char, number, string, fraction, put, put_sign, copy, emit, sprintf_num, place, num_digits,
}
use net_server.Printf.Number.{padded, place-take, take_full, take-take_append}

-- All that an item writes where there is room.
unfoldable pub show : Item → Option (List ℕ)
show (char c) = some (c ∷ [])
show (number negative ui64 sp) =
    num_digits sp.hex ui64 >>= λ ds. some (put_sign negative [] ++ padded sp.zero_char sp.width ds)
show (string p) = some p
show (fraction negative ui64 frac sp) = num_digits 0 ui64 >>= λ ds.
    (let whole = put_sign negative [] ++ padded sp.zero_char sp.width ds in
      if sp.frac_width == 0
      then some whole
      else num_digits 0 frac >>= λ es. some (whole ++ b'.' ∷ padded b'0' sp.frac_width es))

copy-take : (cap : ℕ) (p text : List ℕ) → length text ≤ cap → copy cap p text ≡ take cap (text ++ p)
unfolding copy
copy-take cap [] text le = sym (ap (take cap) (append-nil text) ∙ take-length cap text le)
copy-take cap (c ∷ p) text le = elim (Bool-cases (ltb (length text) cap)) [
  | inl room ↦
      let la = length-append text (c ∷ []) in
      rw room (
        copy-take cap p (put c text) (ground (arith, la))
        ∙ ap (take cap) (append_assoc text (c ∷ []) p))
  | inr full ↦ rw full (sym (take_full cap text (c ∷ p) le (ground arith)))
]

-- A sign fits, since a directive is begun with room for one character.
put_sign-append :
    (negative : Bool) (text : List ℕ) → put_sign negative text ≡ text ++ put_sign negative []
put_sign-append true text = refl
put_sign-append false text = sym (append-nil text)

put_sign-le :
    (negative : Bool) (cap : ℕ) (text : List ℕ)
    → length text < cap
    → length (put_sign negative text) ≤ cap
put_sign-le true cap text lt = omega (arith, length-append text (b'-' ∷ []))
put_sign-le false cap text lt = omega arith

signed_place :
    (cap : ℕ) (negative : Bool) (z width : ℕ) (text ds : List ℕ)
    → length text < cap
    → place cap z width (put_sign negative text) ds
      ≡ take cap (text ++ (put_sign negative [] ++ padded z width ds))
signed_place cap negative z width text ds lt =
    place-take cap z width (put_sign negative text) ds (put_sign-le negative cap text lt)
    ∙ ap (λ zs. take cap (zs ++ padded z width ds)) (put_sign-append negative text)
    ∙ ap (take cap) (append_assoc text (put_sign negative []) (padded z width ds))

-- The point and the digits after it.
point_place :
    (cap width : ℕ) (text es : List ℕ)
    → length text ≤ cap
    → place cap b'0' width (if ltb (length text) cap then put b'.' text else text) es
      ≡ take cap (text ++ b'.' ∷ padded b'0' width es)
point_place cap width text es le = elim (Bool-cases (ltb (length text) cap)) [
  | inl room ↦
      let la = length-append text (b'.' ∷ []) in
      rw room (
        place-take cap b'0' width (put b'.' text) es (ground (arith, la))
        ∙ ap (take cap) (append_assoc text (b'.' ∷ []) (padded b'0' width es)))
  | inr full ↦
      let ge : cap ≤ length text = ground arith in
      rw full (
        place-take cap b'0' width text es le
        ∙ take_full cap text (padded b'0' width es) le ge
        ∙ sym (take_full cap text (b'.' ∷ padded b'0' width es) le ge))
]

number_take :
    (cap : ℕ) (negative : Bool) (z width : ℕ) (text : List ℕ) (o : Option (List ℕ))
    → length text < cap
    → (o >>= λ ds. some (place cap z width (put_sign negative text) ds)) ≡ (
        (o >>= λ ds. some (put_sign negative [] ++ padded z width ds)) >>= λ bs.
        some (take cap (text ++ bs)))
number_take cap negative z width text none lt = refl
number_take cap negative z width text (some ds) lt =
    ap some (signed_place cap negative z width text ds lt)

-- With the text up to the point on the left, and the digits after it, if any are wanted.
fraction_take :
    (cap width : ℕ) (text text₁ whole : List ℕ) (none_wanted : Bool) (o : Option (List ℕ))
    → text₁ ≡ take cap (text ++ whole)
    → (if none_wanted
        then some text₁
        else o >>= λ es.
            some
              (place cap b'0' width (if ltb (length text₁) cap then put b'.' text₁ else text₁) es))
      ≡ ((if none_wanted
            then some whole
            else o >>= λ es. some (whole ++ b'.' ∷ padded b'0' width es))
          >>= λ bs. some (take cap (text ++ bs)))
fraction_take cap width text text₁ whole true o e = ap some e
fraction_take cap width text text₁ whole false none e = refl
fraction_take cap width text text₁ whole false (some es) e =
    let rest = b'.' ∷ padded b'0' width es in
    ap some (
      point_place cap width text₁ es (omega (arith, ap length e, length-take cap (text ++ whole)))
      ∙ ap (λ zs. take cap (zs ++ rest)) e
      ∙ take-take_append cap (text ++ whole) rest
      ∙ ap (take cap) (append_assoc text whole rest))

fraction_items :
    (cap z width frac_width : ℕ) (negative : Bool) (text : List ℕ) (o o' : Option (List ℕ))
    → length text < cap
    → ((o >>= λ ds. some (place cap z width (put_sign negative text) ds)) >>= λ text₁.
        if frac_width == 0
        then some text₁
        else o' >>= λ es. some (
            place cap b'0' frac_width
              (if ltb (length text₁) cap then put b'.' text₁ else text₁)
              es))
      ≡ ((o >>= λ ds.
            if frac_width == 0
            then some (put_sign negative [] ++ padded z width ds)
            else o' >>= λ es.
                some
                  ((put_sign negative [] ++ padded z width ds) ++ b'.' ∷ padded b'0' frac_width es))
          >>= λ bs. some (take cap (text ++ bs)))
fraction_items cap z width frac_width negative text none o' lt = refl
fraction_items cap z width frac_width negative text (some ds) o' lt =
    fraction_take cap frac_width text _ (put_sign negative [] ++ padded z width ds)
      (frac_width == 0) o' (signed_place cap negative z width text ds lt)

-- Where there is room for a character, an item is written as far as there is room.
pub emit-take :
    (cap : ℕ) (item : Item) (text : List ℕ)
    → length text < cap
    → emit cap item text ≡ (show item >>= λ bs. some (take cap (text ++ bs)))
unfolding show emit sprintf_num
emit-take cap (char c) text lt =
    ap some (sym (take-length cap (put c text) (omega (arith, length-append text (c ∷ [])))))
emit-take cap (number negative ui64 sp) text lt =
    number_take cap negative sp.zero_char sp.width text (num_digits sp.hex ui64) lt
emit-take cap (string p) text lt = ap some (copy-take cap p text (omega arith))
emit-take cap (fraction negative ui64 frac sp) text lt =
    fraction_items cap sp.zero_char sp.width sp.frac_width negative text (num_digits 0 ui64)
      (num_digits 0 frac) lt
