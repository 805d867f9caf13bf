-- ===== src/Printf/Render.antt =====
-- ngx_vslprintf as a whole: its output is the start of what it writes into an endless buffer.
use net_server.Base.{
  ◌>>=◌, ℕ, zero, suc, ◌≤◌, ◌≡◌, refl, sym, ap, ◌∙◌, inl, inr, Option, none, some, List, [], ◌∷◌,
  ◌++◌, append-nil, append_assoc, arith, length, take, take-length, length-take, ltb, Bool-cases,
}
use net_server.Printf.{emit, Doubles, Arg, next_item, vslprintf, snprintf}
use net_server.Printf.Number.{take_full, take-take_append}
use net_server.Printf.Clip.{show, emit-take}

-- Inversion of a chain.
>>=-eq-some :
    {A B : Type 0} (o : Option A) (f : A → Option B) {b : B}
    → (o >>= f) ≡ some b
    → (a : A) × (o ≡ some a) × (f a ≡ some b)
>>=-eq-some none f e = cc
>>=-eq-some (some a) f e = (a, refl, e)

module _ (fl : Doubles) where
  -- All that a format writes; `none` if the format or its arguments are at fault.
  unfoldable pub render : ℕ → List ℕ → List (Arg fl) → Option (List ℕ)
  render zero fmt args = none
  render (suc fuel) [] args = some []
  render (suc fuel) (c ∷ fmt) args = next_item fl (c ∷ fmt) args >>= λ (item, rest, args').
      show item >>= λ bs. render fuel rest args' >>= λ more. some (bs ++ more)

  pub vslprintf-take :
      (fuel cap : ℕ) (fmt : List ℕ) (args : List (Arg fl)) (text full : List ℕ)
      → render fuel fmt args ≡ some full
      → length text ≤ cap
      → vslprintf fl fuel cap fmt args text ≡ some (take cap (text ++ full))
  unfolding render vslprintf
  vslprintf-take zero cap fmt args text full e le = cc
  vslprintf-take (suc fuel) cap [] args text full e le =
      let nothing : [] ≡ full = cc in
      ap some (
        sym (take-length cap text le)
        ∙ ap (take cap) (sym (append-nil text) ∙ ap (λ zs. text ++ zs) nothing))
  vslprintf-take (suc fuel) cap (c ∷ fmt) args text full e le =
      elim (Bool-cases (ltb (length text) cap)) [
        | inr stop ↦ rw stop (ap some (sym (take_full cap text full le (ground arith))))
        | inl room ↦
            let (it, item_eq, e₁) = >>=-eq-some (next_item fl (c ∷ fmt) args) _ e in
            let (bs, show_eq, e₂) = >>=-eq-some (show it.0) _ e₁ in
            let (more, more_eq, e₃) = >>=-eq-some (render fuel it.1 it.2) _ e₂ in
            let whole : bs ++ more ≡ full = cc in
            let written : emit cap it.0 text ≡ some (take cap (text ++ bs)) =
              emit-take cap it.0 text (ground arith)
              ∙ ap (λ (o : Option (List ℕ)). o >>= λ zs. some (take cap (text ++ zs))) show_eq in
            let ih =
              vslprintf-take fuel cap it.1 it.2 (take cap (text ++ bs)) more more_eq
                (omega (arith, length-take cap (text ++ bs))) in
            rw (room, item_eq, written)
              (ih
                ∙ ap some (
                    take-take_append cap (text ++ bs) more
                    ∙ ap (take cap) (append_assoc text bs more ∙ ap (λ zs. text ++ zs) whole)))
      ]

  -- ngx_snprintf writes into a buffer of any size the start of all that the format says, as much as
  -- there is room for, and nothing past the end: cutting off happens at the end only, wherever the
  -- room runs out. The format is complete and its arguments fit it, so that all of it can be written.
  pub snprintf-take :
      (cap : ℕ) (fmt : List ℕ) (args : List (Arg fl)) (full : List ℕ)
      → render (suc (length fmt)) fmt args ≡ some full
      → (snprintf fl cap fmt args ≡ some (take cap full)) × (length (take cap full) ≤ cap)
  unfolding snprintf
  snprintf-take cap fmt args full e = (
    vslprintf-take (suc (length fmt)) cap fmt args [] full e (omega arith),
    omega (arith, length-take cap full),
  )
