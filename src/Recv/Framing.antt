-- ===== src/Recv/Framing.antt =====
-- What reassembly promises, with no states or buffers: a package is cut off as soon as the bytes
-- that came since the last one make it up, and a header with a bad length is thrown away.
use net_server.Base.{
  ℕ, suc, ◌+◌, ◌-◌, ◌≤◌, ◌<◌, ◌≡◌, ◌≢◌, refl, ap, ◌∙◌, List, [], ◌∷◌, ◌++◌, append-nil,
  append_assoc, arith, length, ltb, ◌==◌, if◌then◌else◌, length-append,
}
use net_server.Types.{len_pkg_header, pkg_max_length, pkg_len}
use net_server.Recv.Buffer.{pkg_len-append}

abbrev pub Package : Type 0
Package = List ℕ

-- The bytes that are still pending, and the packages that are complete.
abbrev pub Framed : Type 0
Framed = List ℕ × List Package

-- `p` holds a whole header and nothing else.
unfoldable pub settle_header : List ℕ → Framed
settle_header p =
    if ltb (pkg_len p) len_pkg_header
    then ([], [])
    else if ltb (pkg_max_length - 1000) (pkg_len p)
    then ([], [])
    else if pkg_len p == len_pkg_header
    then ([], p ∷ [])
    else (p, [])

unfoldable pub settle_body : List ℕ → Framed
settle_body p = if length p == pkg_len p then ([], p ∷ []) else (p, [])

unfoldable pub settle : List ℕ → Framed
settle p =
    if ltb (length p) len_pkg_header
    then (p, [])
    else if length p == len_pkg_header
    then settle_header p
    else settle_body p

-- The stream is taken byte by byte.
unfoldable pub frames : List ℕ → List ℕ → Framed
frames pending [] = (pending, [])
frames pending (b ∷ bs) =
    let (p, out) = settle (pending ++ b ∷ []) in let (p', out') = frames p bs in (p', out ++ out')

-- How many bytes the next decision needs.
abbrev pub target : List ℕ → ℕ
target p = if ltb (length p) len_pkg_header then len_pkg_header else pkg_len p

-- Short of the target nothing is decided.
pub settle-short :
    (p : List ℕ) → length p ≢ len_pkg_header → length p < target p → settle p ≡ (p, [])
unfolding settle settle_body
settle-short p ne h = ground arith

-- One more byte, short of the target, leaves the target where it is.
target-append : (p : List ℕ) (b : ℕ) → length p + 2 ≤ target p → target (p ++ b ∷ []) ≡ target p
target-append p b h = ground (arith, length-append p (b ∷ []), pkg_len-append p (b ∷ []))

one_byte : (p : List ℕ) (b : ℕ) → length p + 2 ≤ target p → settle (p ++ b ∷ []) ≡ (p ++ b ∷ [], [])
one_byte p b h =
    settle-short (p ++ b ∷ []) (ground (arith, length-append p (b ∷ [])))
      (ground (arith, length-append p (b ∷ []), target-append p b h))

-- So a chunk that does not pass the target can be taken at once.
pub frames-chunk :
    (pending : List ℕ) (b : ℕ) (bs : List ℕ)
    → length pending + suc (length bs) ≤ target pending
    → frames pending (b ∷ bs) ≡ settle (pending ++ b ∷ bs)
unfolding frames
frames-chunk pending b [] h =
    ap (λ (out : List Package). ((settle (pending ++ b ∷ [])).0, out)) (append-nil _)
frames-chunk pending b (b' ∷ bs) h =
    rw (one_byte pending b (omega arith), frames)
      (frames-chunk (pending ++ b ∷ []) b' bs
          (omega (arith, length-append pending (b ∷ []), target-append pending b (omega arith)))
        ∙ ap settle (append_assoc pending (b ∷ []) (b' ∷ bs)))

-- The framing of a stream does not depend on where it is cut.
pub frames-append :
    (pending xs ys : List ℕ)
    → frames pending (xs ++ ys) ≡ (
      (frames (frames pending xs).0 ys).0,
      (frames pending xs).1 ++ (frames (frames pending xs).0 ys).1,
    )
unfolding frames
frames-append pending [] ys = refl
frames-append pending (x ∷ xs) ys =
    let (p, out) = settle (pending ++ x ∷ []) in rw (frames-append p xs ys, append_assoc out)

pub settle_of_header : (p : List ℕ) → length p ≡ len_pkg_header → settle p ≡ settle_header p
unfolding settle
settle_of_header p h = ground arith

pub settle_of_body :
    (p : List ℕ) → len_pkg_header < length p → length p ≡ pkg_len p → settle p ≡ ([], p ∷ [])
unfolding settle settle_body
settle_of_body p h e = ground arith
