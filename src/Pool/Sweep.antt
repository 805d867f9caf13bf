-- ===== src/Pool/Sweep.antt =====
-- The loop of ServerRecyConnectionThread, which starts again from the head after each removal,
-- against a single pass.
use net_server.Base.{
  ℕ, zero, suc, ◌^◌, ◌≤◌, ◌<◌, ◌≡◌, refl, sym, ap, subst, fun_ext, ◌∙◌, ◌⊎◌, inl, inr, Bool, true,
  false, Option, none, some, List, [], ◌∷◌, ◌++◌, append-nil, append_assoc, arith, length,
  if◌then◌else◌, length-append, Bool-cases,
}
use net_server.Base.Words.{is_pos32}
use net_server.Types.{Config}
use net_server.Pool.{
  Pool, free_connection, due, recycle, recycle_one, too_early, recy_connection_round,
}
use net_server.Pool.Count.{occurs, occurs-append}
use net_server.Pool.Invariant.{IsConsistent}

-- The entries that pass a test, and those that do not.
abbrev pub kept : (ℕ → Bool) → List ℕ → List ℕ
kept early [] = []
kept early (a ∷ rest) = if early a then a ∷ kept early rest else kept early rest

abbrev pub ripe : (ℕ → Bool) → List ℕ → List ℕ
ripe early [] = []
ripe early (a ∷ rest) = if early a then ripe early rest else a ∷ ripe early rest

-- What one search of the list finds.
abbrev Finds : (ℕ → Bool) → List ℕ → Option (ℕ × List ℕ) → Type 0
Finds early xs none = (kept early xs ≡ xs) × (ripe early xs ≡ [])
Finds early xs (some (a, others)) =
    (kept early xs ≡ kept early others)
    × (ripe early xs ≡ a ∷ ripe early others)
    × (length xs ≡ suc (length others))
    × ((b : ℕ) → occurs b xs ≡ occurs b (a ∷ others))

due-Finds : (early : ℕ → Bool) (xs : List ℕ) → Finds early xs (due early xs)
unfolding due
due-Finds early [] = (refl, refl)
due-Finds early (a ∷ rest) =
    step (due early rest) refl (due-Finds early rest) (Bool-cases (early a))
  where
    step :
        (o : Option (ℕ × List ℕ))
        → due early rest ≡ o
        → Finds early rest o
        → (early a ≡ true) ⊎ (early a ≡ false)
        → Finds early (a ∷ rest) (due early (a ∷ rest))
    step none e f (inl t) = rw (t, e, t) (ap (◌∷◌ a) f.0, f.1)
    step none e f (inr t) = rw t (rw t, rw t, refl, λ b. refl)
    step (some (b, others)) e f (inl t) =
        rw (t, e) (rw t (ap (◌∷◌ a) f.0), rw t f.1, ap suc f.2, λ x. omega (arith, f.3 x))
    step (some (b, others)) e f (inr t) = rw t (rw t, rw t, refl, λ x. refl)

-- A test that giving a connection back does not change.
abbrev pub Stable : (Pool → ℕ → Bool) → Type 0
Stable early = (p : Pool) (a : ℕ) (others : List ℕ) → early (recycle_one a others p) ≡ early p

-- What the loop has done: the entries that are due have moved, in order, to the free list.
pub record Recycled (early : ℕ → Bool) (p p' : Pool) : Type 0 where
  pub recy : p'.recy_list ≡ kept early p.recy_list
  pub free : p'.free_list ≡ p.free_list ++ ripe early p.recy_list
  pub total : p'.connection_list ≡ p.connection_list
  pub books : IsConsistent p'
  pub online : p'.online_n ≡ p.online_n

recycle_one-IsConsistent :
    (a : ℕ) (others : List ℕ) (p : Pool)
    → IsConsistent p
    → length p.recy_list ≡ suc (length others)
    → ((b : ℕ) → occurs b p.recy_list ≡ occurs b (a ∷ others))
    → IsConsistent (recycle_one a others p)
unfolding free_connection
recycle_one-IsConsistent a others p v l c = record {
  total = v.total;
  free = ground (arith, length-append p.free_list (a ∷ []), v.free);
  recy = ground (arith, v.recy);
  once = v.once;
  apart = λ b. ground (arith, occurs-append b p.free_list (a ∷ []), v.apart b, c b);
  fresh = v.fresh;
}

nil_of_length : (xs : List ℕ) → length xs ≤ 0 → xs ≡ []
nil_of_length [] h = refl
nil_of_length (x ∷ xs) h = absurd (omega arith)

-- Nothing is due.
idle-Recycled :
    (early : ℕ → Bool) (p : Pool)
    → IsConsistent p
    → kept early p.recy_list ≡ p.recy_list
    → ripe early p.recy_list ≡ []
    → Recycled early p p
idle-Recycled early p v k r = record {
  recy = sym k;
  free = rw (r, append-nil);
  total = refl;
  books = v;
  online = refl;
}

empty-Recycled :
    (early : ℕ → Bool) (p : Pool) → IsConsistent p → p.recy_list ≡ [] → Recycled early p p
empty-Recycled early p v e = idle-Recycled early p v (ap (kept early) e ∙ sym e) (ap (ripe early) e)

one-Recycled :
    (early : ℕ → Bool) (a : ℕ) (others : List ℕ) (p p' : Pool)
    → kept early p.recy_list ≡ kept early others
    → ripe early p.recy_list ≡ a ∷ ripe early others
    → Recycled early (recycle_one a others p) p'
    → Recycled early p p'
unfolding free_connection
one-Recycled early a others p p' k r d = record {
  recy = d.recy ∙ sym k;
  free =
      d.free
      ∙ append_assoc p.free_list (a ∷ []) (ripe early others)
      ∙ ap (◌++◌ p.free_list) (sym r);
  total = d.total;
  books = d.books;
  online = d.online;
}

recy_list-recycle_one :
    (a : ℕ) (others : List ℕ) (p : Pool) → (recycle_one a others p).recy_list ≡ others
unfolding free_connection
recy_list-recycle_one a others p = refl

-- With fuel for each entry the loop ends because nothing is due any more.
pub recycle-Recycled :
    (early : Pool → ℕ → Bool) (fuel : ℕ) (p : Pool)
    → Stable early
    → length p.recy_list ≤ fuel
    → IsConsistent p
    → Recycled (early p) p (recycle fuel early p)
unfolding recycle
recycle-Recycled early zero p st h v = empty-Recycled (early p) p v (nil_of_length p.recy_list h)
recycle-Recycled early (suc fuel) p st h v =
    step (λ a others. recycle-Recycled early fuel (recycle_one a others p) st)
      (due (early p) p.recy_list) (due-Finds (early p) p.recy_list)
  where
    step :
        ((a : ℕ) (others : List ℕ)
          → length (recycle_one a others p).recy_list ≤ fuel
          → IsConsistent (recycle_one a others p)
          → Recycled
              (early (recycle_one a others p))
              (recycle_one a others p)
              (recycle fuel early (recycle_one a others p)))
        → (o : Option (ℕ × List ℕ)) → Finds (early p) p.recy_list o
        → Recycled
            (early p)
            p
            (elim o [ none ↦ p | some (a, others) ↦ recycle fuel early (recycle_one a others p) ])
    step ih none f = idle-Recycled (early p) p v f.0 f.1
    step ih (some (a, others)) f = one-Recycled (early p) a others p _ f.0 f.1 (
        subst
          (λ e. Recycled e (recycle_one a others p) (recycle fuel early (recycle_one a others p)))
          (st p a others)
          (ih a others
            (subst (λ (xs : List ℕ). length xs ≤ fuel) (sym (recy_list-recycle_one a others p))
              (omega (arith, f.2)))
            (recycle_one-IsConsistent a others p v f.2 f.3)))

Stable-too_early :
    (cfg : Config) (now : ℕ) (stopping : Bool)
    → Stable (λ q a. too_early cfg now stopping (q.conns a))
unfolding free_connection
Stable-too_early cfg now stopping p a others = fun_ext (λ b. ground arith)

-- The guard `m_totol_recyconnection_n > 0` passes over the loop only when the list is empty.
guarded-Recycled :
    (early : Pool → ℕ → Bool) (p : Pool)
    → Stable early
    → IsConsistent p
    → length p.recy_list < 2 ^ 31
    → Recycled (early p) p (if is_pos32 p.recy_n then recycle (length p.recy_list) early p else p)
guarded-Recycled early p st v lt = elim (Bool-cases (is_pos32 p.recy_n)) [
  | inl t ↦ rw t (recycle-Recycled early (length p.recy_list) p st (omega arith) v)
  | inr t ↦ rw t (empty-Recycled (early p) p v (nil_of_length p.recy_list (ground (arith, v.recy))))
]

-- No entry of the list is early when the server stops.
never_early :
    (cfg : Config) (now : ℕ) (p : Pool)
    → ◌≡◌ {A = ℕ → Bool} (λ a. too_early cfg now true (p.conns a)) (λ a. false)
never_early cfg now p = fun_ext (λ a. ground arith)

kept_none : (xs : List ℕ) → kept (λ a. false) xs ≡ []
kept_none [] = refl
kept_none (x ∷ xs) = kept_none xs

ripe_all : (xs : List ℕ) → ripe (λ a. false) xs ≡ xs
ripe_all [] = refl
ripe_all (x ∷ xs) = ap (◌∷◌ x) (ripe_all xs)

no_second_sweep :
    (p : Pool)
    → p.recy_list ≡ []
    → (if is_pos32 p.recy_n then recycle (length p.recy_list) (λ q a. false) p else p) ≡ p
unfolding recycle
no_second_sweep p e = rw (e, recycle) (ground arith)

-- The last round, with the server stopping, gives every waiting connection back at once, in order, and
-- keeps the books. Fewer than 2 ^ 31 connections wait.
pub recy_round-stopping :
    (cfg : Config) (now : ℕ) (p : Pool)
    → IsConsistent p
    → length p.recy_list < 2 ^ 31
    → let p' = recy_connection_round cfg now true p in
      (p'.recy_list ≡ []) × (p'.free_list ≡ p.free_list ++ p.recy_list) × IsConsistent p'
unfolding recy_connection_round
recy_round-stopping cfg now p v lt =
    let early = λ (q : Pool) (a : ℕ). too_early cfg now true (q.conns a) in
    let d = guarded-Recycled early p (Stable-too_early cfg now true) v lt in
    let p₁ : Pool = (if is_pos32 p.recy_n then recycle (length p.recy_list) early p else p) in
    let none_left : p₁.recy_list ≡ [] =
      d.recy ∙ ap (λ e. kept e p.recy_list) (never_early cfg now p) ∙ kept_none p.recy_list in
    rw (no_second_sweep p₁ none_left) (
      none_left,
      d.free
          ∙ ap (◌++◌ p.free_list)
              (ap (λ e. ripe e p.recy_list) (never_early cfg now p) ∙ ripe_all p.recy_list),
      d.books,
    )

-- A round of the recycling thread while the server runs, though it starts again after each removal,
-- does what one pass does: the connections that are due move to the free list in their order, the
-- others stay, and the books are kept. Fewer than 2 ^ 31 connections wait.
pub recy_round-running :
    (cfg : Config) (now : ℕ) (p : Pool)
    → IsConsistent p
    → length p.recy_list < 2 ^ 31
    → Recycled (λ a. too_early cfg now false (p.conns a)) p (recy_connection_round cfg now false p)
unfolding recy_connection_round
recy_round-running cfg now p v lt =
    guarded-Recycled (λ q a. too_early cfg now false (q.conns a)) p (Stable-too_early cfg now false)
      v lt
