-- ===== src/Examples/Naming.antt =====
-- Examples for Title.
use net_server.Base.{ℕ, ◌≡◌, refl, some, List, [], ◌∷◌, ◌++◌, arith, length, map, drop}
use net_server.Base.Text.{bytes}
use net_server.Title.{string_of, init_setproctitle, setproctitle, name_master}
use net_server.Title.Moved.{init_setproctitle-moves}
use net_server.Title.Named.{setproctitle-names, name_master-named}

abbrev environment : List (List ℕ)
environment = bytes "A=1" ∷ bytes "BC=" ∷ []

init_setproctitle-moves_example :
    (pointers mem : List ℕ) × (init_setproctitle environment ≡ some (pointers, mem))
    × (length mem ≡ 8)
    × (map (λ p. string_of (drop p mem)) pointers ≡ environment)
init_setproctitle-moves_example = init_setproctitle-moves environment (
  (λ e. omega (arith, e), (λ e. omega (arith, e), (λ e. omega (arith, e), tt))),
  ((λ e. omega (arith, e), (λ e. omega (arith, e), (λ e. omega (arith, e), tt))), tt),
)

-- "./n" and "A=1" are overwritten.
setproctitle-names_example :
    setproctitle 8 (bytes "work") (0 ∷ 2 ∷ []) (bytes "./n" ++ 0 ∷ (bytes "A=1" ++ 0 ∷ []))
    ≡ some (0 ∷ [], bytes "work" ++ 0 ∷ 0 ∷ 0 ∷ 0 ∷ [])
setproctitle-names_example =
    setproctitle-names 8 (bytes "work") (0 ∷ 2 ∷ []) (bytes "./n" ++ 0 ∷ (bytes "A=1" ++ 0 ∷ []))
      refl

name_master-named_example :
    name_master 4 19
      (bytes "./n" ∷ [])
      (0 ∷ [])
      (bytes "./n" ++ 0 ∷ (bytes "PATH=/usr/bin:/bin" ++ 0 ∷ []))
    ≡ some (0 ∷ [], bytes "master process ./n" ++ 0 ∷ 0 ∷ 0 ∷ 0 ∷ 0 ∷ [])
name_master-named_example =
    name_master-named (bytes "./n" ∷ []) (bytes "PATH=/usr/bin:/bin" ∷ []) (0 ∷ [])
      (bytes "./n" ++ 0 ∷ (bytes "PATH=/usr/bin:/bin" ++ 0 ∷ [])) refl
