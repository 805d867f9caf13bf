-- ===== src/Strings.antt =====
-- app/ngx_string.cxx: Rtrim and Ltrim, on an array of char. Its bytes are a list. A read or a write
-- outside the array has no result.
pub mod Trimming
use net_server.Base.{
  ℕ, zero, suc, Option, none, some, ◌>>=◌, List, [], ◌∷◌, get_or, set, ◌==◌, if◌then◌else◌,
}

-- strlen
abbrev pub strlen : List ℕ → Option ℕ
strlen [] = none
strlen (b ∷ bs) = let rest = strlen bs in if b == 0 then some 0 else rest >>= λ n. some (suc n)

-- The string that an array holds: its bytes before the first NUL.
abbrev pub c_str : List ℕ → List ℕ
c_str [] = []
c_str (b ∷ bs) = let rest = c_str bs in if b == 0 then [] else b ∷ rest

-- The loop of Rtrim, which overwrites the last byte while it is a space.
unfoldable pub rtrim_loop : ℕ → List ℕ → List ℕ
rtrim_loop zero string = string
rtrim_loop (suc len) string =
    let rest = rtrim_loop len (set string len 0) in
    if get_or string len 0 == b' ' then rest else string

unfoldable pub rtrim : List ℕ → Option (List ℕ)
rtrim string = strlen string >>= λ len. some (rtrim_loop len string)

-- Where `p_tmp` points after the first loop of Ltrim.
unfoldable pub skip_spaces : List ℕ → List ℕ
skip_spaces [] = []
skip_spaces (b ∷ bs) = let rest = skip_spaces bs in if b == b' ' then rest else b ∷ bs

-- The second loop of Ltrim: the bytes from `p_tmp2` on and those from `p_tmp` on. `p_tmp` is ahead, so
-- the loop reads bytes that it has not written yet.
unfoldable pub copy_down : List ℕ → List ℕ → Option (List ℕ)
copy_down [] from = none
copy_down (b ∷ bs) [] = if b == 0 then some (0 ∷ bs) else none
copy_down (b ∷ bs) (c ∷ from) =
    let rest = copy_down bs from in
    if b == 0 then some (0 ∷ bs) else rest >>= λ copied. some (c ∷ copied)

unfoldable pub ltrim : List ℕ → Option (List ℕ)
ltrim string = strlen string >>= λ len.
    (if get_or string 0 0 == b' '
      then (let p = skip_spaces string in
          if get_or p 0 0 == 0 then some (set string 0 0) else copy_down string p)
      else some string)
