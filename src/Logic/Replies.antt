-- ===== src/Logic/Replies.antt =====
-- The packages that the handlers send.
use net_server.Base.{
  ℕ, zero, suc, ◌≢◌, true, false, ◌+◌, ◌-◌, ◌^◌, ◌≤◌, ◌<◌, ◌≡◌, refl, sym, ◌∙◌, none, some, List,
  [], ◌∷◌, ◌++◌, arith, length, take, drop, length-drop, take-length, All, ◌==◌,
}
use net_server.Types.{MsgHeader, len_pkg_header, pkg_max_length, pkg_len}
use net_server.Recv.Stream.{IsPackage}
use net_server.Crc.{get_crc}
use net_server.Crc.Bitwise.{IsByte, get_crc-lt}
use net_server.Logic.{msg_code, crc_field, pkg_header, reply, reply_body, check_crc}

-- The header is read back as it was written.
header-pkg_len :
    (len code crc : ℕ) (body : List ℕ)
    → len < 2 ^ 16
    → pkg_len (pkg_header len code crc ++ body) ≡ len
header-pkg_len len code crc body lt = omega (arith, lt)

header-msg_code :
    (len code crc : ℕ) (body : List ℕ)
    → code < 2 ^ 16
    → msg_code (pkg_header len code crc ++ body) ≡ code
header-msg_code len code crc body lt = omega (arith, lt)

header-crc_field :
    (len code crc : ℕ) (body : List ℕ)
    → crc < 2 ^ 32
    → crc_field (pkg_header len code crc ++ body) ≡ crc
header-crc_field len code crc body lt = omega (arith, lt)

All-drop : (n : ℕ) (xs : List ℕ) → All IsByte xs → All IsByte (drop n xs)
All-drop zero xs ok = ok
All-drop (suc n) [] ok = ok
All-drop (suc n) (x ∷ xs) ok = All-drop n xs ok.1

check_crc-body :
    (p body : List ℕ)
    → pkg_len p ≢ len_pkg_header
    → take (pkg_len p - len_pkg_header) (drop len_pkg_header p) ≡ body
    → get_crc body ≡ crc_field p
    → check_crc p ≡ some (some body)
unfolding check_crc
check_crc-body p body ne e c =
    let other : (len_pkg_header == pkg_len p) ≡ false = ground arith in
    let good : (get_crc body == crc_field p) ≡ true = ground arith in rw (other, e) (rw good refl)

-- A reply is a package as the server itself would take it: its length is in its header and within
-- the limits, its code is the command's, and its CRC passes threadRecvProcFunc's test, which gives
-- back the body. The allocator returns as many bytes as it is asked for.
pub reply-verified :
    (alloc : ℕ → List ℕ)
    → ((n : ℕ) → length (alloc n) ≡ n)
    → ((n : ℕ) → All IsByte (alloc n))
    → (h : MsgHeader) (code len : ℕ) → code < 2 ^ 16
    → 0 < len
    → len_pkg_header + len ≤ pkg_max_length - 1000
    → let p = (reply alloc h code len).pkg in
      IsPackage p × (msg_code p ≡ code) × (check_crc p ≡ some (some (reply_body alloc len)))
unfolding reply check_crc
reply-verified alloc size bytes h code len lt pos le =
    let body = reply_body alloc len in
    let total = len_pkg_header + len in
    let crc = get_crc body in
    let lb : length body ≡ len =
      length-drop len_pkg_header (alloc total) ∙ omega (arith, size total) in
    let pl = header-pkg_len total code crc body (omega (arith, le)) in
    let cf =
      header-crc_field total code crc body
        (get_crc-lt body (All-drop len_pkg_header (alloc total) (bytes total))) in
    let all : take (pkg_len (pkg_header total code crc ++ body) - len_pkg_header) body ≡ body =
      take-length _ body (omega (arith, pl, lb)) in
    (
      (omega (arith, lb, pl), omega (arith, lb), omega (arith, lb, le)),
      header-msg_code total code crc body lt,
      check_crc-body (pkg_header total code crc ++ body) body (λ e. omega (arith, pl, pos)) all
          (sym cf),
    )

-- So is the answer to a heartbeat, which is a header alone.
pub no_body-verified :
    (code : ℕ)
    → code < 2 ^ 16
    → let p = pkg_header len_pkg_header code 0 in
      IsPackage p × (msg_code p ≡ code) × (check_crc p ≡ some none)
unfolding check_crc
no_body-verified code lt = ((refl, omega arith, omega arith), omega (arith, lt), refl)
