-- ===== src/Title/Writing.antt =====
-- Writing into the middle of a memory.
use net_server.Base.{
  ℕ, ◌≡◌, ◌≢◌, refl, ap, Option, some, ◌>>=◌, List, [], ◌∷◌, ◌++◌, All, arith, length, ◌==◌, false,
}
use net_server.Title.{overwrite, write_at, string_of}

-- A string has no NUL.
abbrev pub IsString : List ℕ → Type 0
IsString s = All (λ b. b ≢ 0) s

overwrite-replaces :
    (bs old post : List ℕ) → length old ≡ length bs → overwrite bs (old ++ post) ≡ some (bs ++ post)
unfolding overwrite
overwrite-replaces [] [] post e = refl
overwrite-replaces [] (x ∷ old) post e = absurd (omega (arith, e))
overwrite-replaces (b ∷ bs) [] post e = absurd (omega (arith, e))
overwrite-replaces (b ∷ bs) (x ∷ old) post e =
    ap (λ (o : Option (List ℕ)). o >>= λ rest. some (b ∷ rest))
      (overwrite-replaces bs old post (omega (arith, e)))

pub write_at-replaces :
    (pre bs old post : List ℕ)
    → length old ≡ length bs
    → write_at (length pre) bs (pre ++ (old ++ post)) ≡ some (pre ++ (bs ++ post))
unfolding write_at
write_at-replaces [] bs old post e = overwrite-replaces bs old post e
write_at-replaces (x ∷ pre) bs old post e =
    ap (λ (o : Option (List ℕ)). o >>= λ rest. some (x ∷ rest))
      (write_at-replaces pre bs old post e)

pub string_of-append : (s rest : List ℕ) → IsString s → string_of (s ++ 0 ∷ rest) ≡ s
string_of-append [] rest ok = refl
string_of-append (b ∷ s) rest (ne, ok) = rw (not_nul b ne) (ap (◌∷◌ b) (string_of-append s rest ok))
  where
    not_nul : (x : ℕ) → x ≢ 0 → (x == 0) ≡ false
    not_nul x h = ground (arith, h)
