-- ===== src/Inet/Dotted.antt =====
-- The text of an address is its four bytes in decimal, with points between them, and the port.
use net_server.Base.{
  if◌then◌else◌, Bool-cases, inl, inr, ℕ, suc, ltb, ◌-◌, ◌%◌, ◌^◌, ◌<◌, ◌≤◌, ◌≡◌, lt→ltb, refl,
  true, some, List, [], ◌∷◌, ◌++◌, append-nil, arith, length, take, ◌==◌,
}
use net_server.Printf.{Doubles, word, parse_number, parse_flags, convert, next_item, num_digits}
use net_server.Printf.Digits.{IsDigits, num_digits-IsNumeral}
use net_server.Printf.Number.{padded}
use net_server.Printf.Clip.{show}
use net_server.Printf.Render.{render, snprintf-take}
use net_server.Inet.{SockAddr, address_format, address_port_format, sock_ntop}

-- A decimal numeral for a number of 16 bits, as the format prints it.
decimal :
    (x : ℕ) → x < 2 ^ 16 → (ds : List ℕ) × (num_digits 0 (x % 2 ^ 32) ≡ some ds) × IsDigits 0 x ds
decimal x lt =
    let same : x % 2 ^ 32 ≡ x = omega arith in rw same (num_digits-IsNumeral 0 x (omega arith))

-- With no width nothing is filled up.
unpadded : (z : ℕ) (ds : List ℕ) → padded z 0 ds ≡ ds
unpadded z ds = rw (none_left (length ds)) refl
  where
    none_left : (n : ℕ) → 0 - n ≡ 0
    none_left n = omega arith

-- The text of an address: the numerals of its bytes, and of its port if that is wanted.
pub record Dotted (sa : SockAddr) (port : ℕ) (text : List ℕ) : Type 0 where
  pub n0 : List ℕ
  pub n1 : List ℕ
  pub n2 : List ℕ
  pub n3 : List ℕ
  pub np : List ℕ
  pub numeral0 : IsDigits 0 sa.p0 n0
  pub numeral1 : IsDigits 0 sa.p1 n1
  pub numeral2 : IsDigits 0 sa.p2 n2
  pub numeral3 : IsDigits 0 sa.p3 n3
  pub numeral_port : IsDigits 0 sa.port np
  pub whole :
      text ≡ n0 ++ b'.' ∷ (n1 ++ b'.' ∷ (n2 ++ b'.' ∷ (if port == 0 then n3 else n3 ++ b':' ∷ np)))

module _ (fl : Doubles) where
  render-address :
      (a b c d : ℕ) (ka kb kc kd : List ℕ)
      → num_digits 0 (a % 2 ^ 32) ≡ some ka
      → num_digits 0 (b % 2 ^ 32) ≡ some kb
      → num_digits 0 (c % 2 ^ 32) ≡ some kc
      → num_digits 0 (d % 2 ^ 32) ≡ some kd
      → render fl
          (suc (length address_format))
          address_format
          (word a ∷ word b ∷ word c ∷ word d ∷ [])
        ≡ some (ka ++ b'.' ∷ (kb ++ b'.' ∷ (kc ++ b'.' ∷ kd)))
  unfolding render next_item parse_number parse_flags convert show
  render-address a b c d ka kb kc kd ea eb ec ed = rw (ea, eb, ec, ed) (simp (unpadded, append-nil))

  render-address_port :
      (a b c d p : ℕ) (ka kb kc kd kp : List ℕ)
      → num_digits 0 (a % 2 ^ 32) ≡ some ka
      → num_digits 0 (b % 2 ^ 32) ≡ some kb
      → num_digits 0 (c % 2 ^ 32) ≡ some kc
      → num_digits 0 (d % 2 ^ 32) ≡ some kd
      → num_digits 0 (p % 2 ^ 32) ≡ some kp
      → ltb (p % 2 ^ 32) (2 ^ 31) ≡ true
      → ltb (p % 2 ^ 32) (2 ^ 63) ≡ true
      → render fl
          (suc (length address_port_format))
          address_port_format
          (word a ∷ word b ∷ word c ∷ word d ∷ word p ∷ [])
        ≡ some (ka ++ b'.' ∷ (kb ++ b'.' ∷ (kc ++ b'.' ∷ (kd ++ b':' ∷ kp))))
  unfolding render next_item parse_number parse_flags convert show
  render-address_port a b c d p ka kb kc kd kp ea eb ec ed ep small small' =
      rw (small, small') (rw (ea, eb, ec, ed, ep) (simp (unpadded, append-nil)))

  -- The text of an address, with the port if it is wanted, is made of the decimal numerals of its
  -- bytes and of its port. In a buffer of `len` bytes it is cut off at the end, and no more than
  -- `len` bytes are written. The bytes and the port are numbers of 16 bits.
  pub sock_ntop-Dotted :
      (sa : SockAddr) (port len : ℕ)
      → sa.p0 < 2 ^ 16
      → sa.p1 < 2 ^ 16
      → sa.p2 < 2 ^ 16
      → sa.p3 < 2 ^ 16
      → sa.port < 2 ^ 16
      → (text : List ℕ) × Dotted sa port text
        × (sock_ntop fl (some sa) port len ≡ some (take len text))
        × (length (take len text) ≤ len)
  unfolding sock_ntop
  sock_ntop-Dotted sa port len l0 l1 l2 l3 lp =
      let d0 = decimal sa.p0 l0 in
      let d1 = decimal sa.p1 l1 in
      let d2 = decimal sa.p2 l2 in
      let d3 = decimal sa.p3 l3 in
      let dp = decimal sa.port lp in
      let plain = render-address sa.p0 sa.p1 sa.p2 sa.p3 d0.0 d1.0 d2.0 d3.0 d0.1 d1.1 d2.1 d3.1 in
      let ported =
        render-address_port sa.p0 sa.p1 sa.p2 sa.p3 sa.port d0.0 d1.0 d2.0 d3.0 dp.0 d0.1 d1.1 d2.1
          d3.1 dp.1 (lt→ltb _ _ (omega arith)) (lt→ltb _ _ (omega arith)) in
      let known : (text : List ℕ) → text ≡ _ → Dotted sa port text = λ text e. record {
        n0 = d0.0;
        n1 = d1.0;
        n2 = d2.0;
        n3 = d3.0;
        np = dp.0;
        numeral0 = d0.2;
        numeral1 = d1.2;
        numeral2 = d2.2;
        numeral3 = d3.2;
        numeral_port = dp.2;
        whole = e;
      } in
      elim (Bool-cases (port == 0)) [
        | inl unwanted ↦
            let r = snprintf-take fl len address_format _ _ plain in
            (_, known _ (rw unwanted refl), rw unwanted r.0, r.1)
        | inr wanted ↦
            let r = snprintf-take fl len address_port_format _ _ ported in
            (_, known _ (rw wanted refl), rw wanted r.0, r.1)
      ]
