-- ===== src/Examples/Printing.antt =====
-- Examples for Printf and Inet.
use net_server.Base.{
  ℕ, ◌-◌, ◌+◌, ◌*◌, ◌/◌, ◌^◌, ◌≤◌, ◌≡◌, refl, true, false, some, Bool, List, [], ◌∷◌, arith, length,
  take,
}
use net_server.Printf.{
  Doubles, Arg, word, text_at, double, num_digits, digit_loop, sprintf_num, place, pad,
  parse_number, parse_flags, convert, next_item, emit, copy, vslprintf, snprintf,
}
use net_server.Printf.Digits.{IsDigits}
use net_server.Printf.Number.{padded, sprintf_num-take}
use net_server.Printf.Clip.{show}
use net_server.Printf.Render.{render, snprintf-take}
use net_server.Inet.{SockAddr, sock_ntop}
use net_server.Inet.Dotted.{Dotted, sock_ntop-Dotted}

-- Numbers of the form n / 100 for `double`.
abbrev pub hundredths : Doubles
hundredths = record {
  Double = Bool × ℕ;
  is_negative = λ f. f.0;
  negated = λ f. (false, f.1);
  whole = λ f. f.1 / 100;
  digits_after = λ f whole scale. ((f.1 - whole * 100) * scale + 50) / 100;
}

-- "%05d" for 42, into seven bytes of which two are taken.
sprintf_num-take_example :
    (ds : List ℕ) × IsDigits 0 42 ds
    × (sprintf_num 7 (b'n' ∷ b'=' ∷ []) 42 b'0' 0 5
        ≡ some (take 7 (b'n' ∷ b'=' ∷ padded b'0' 5 ds)))
sprintf_num-take_example =
    sprintf_num-take 7 42 b'0' 0 5 (b'n' ∷ b'=' ∷ []) (omega arith) (omega arith)

-- "%3d %s %.1f"
abbrev mixed_format : List ℕ
mixed_format = b'%' ∷ b'3' ∷ b'd' ∷ b' ' ∷ b'%' ∷ b's' ∷ b' ' ∷ b'%' ∷ b'.' ∷ b'1' ∷ b'f' ∷ []

-- 2 ^ 32 - 7 is -7 as an int, and the double is -1.25.
abbrev mixed_args : List (Arg hundredths)
mixed_args = word (2 ^ 32 - 7) ∷ text_at (b'o' ∷ b'k' ∷ []) ∷ double (true, 125) ∷ []

-- "-  7 ok -1.3"
abbrev mixed_text : List ℕ
mixed_text = b'-' ∷ b' ' ∷ b' ' ∷ b'7' ∷ b' ' ∷ b'o' ∷ b'k' ∷ b' ' ∷ b'-' ∷ b'1' ∷ b'.' ∷ b'3' ∷ []

mixed_rendered : render hundredths 12 mixed_format mixed_args ≡ some mixed_text
unfolding render next_item parse_number parse_flags convert show num_digits digit_loop
mixed_rendered = refl

snprintf-take_example :
    (snprintf hundredths 6 mixed_format mixed_args ≡ some (take 6 mixed_text))
    × (length (take 6 mixed_text) ≤ 6)
snprintf-take_example = snprintf-take hundredths 6 mixed_format mixed_args mixed_text mixed_rendered

snprintf_cut : snprintf hundredths 10 mixed_format mixed_args ≡ some (take 10 mixed_text)
unfolding snprintf vslprintf next_item parse_number parse_flags convert emit copy sprintf_num
    num_digits digit_loop place pad
snprintf_cut = refl

abbrev local_host : SockAddr
local_host = record { p0 = 127; p1 = 0; p2 = 0; p3 = 1; port = 9000 }

sock_ntop-Dotted_example :
    (text : List ℕ) × Dotted local_host 1 text
    × (sock_ntop hundredths (some local_host) 1 12 ≡ some (take 12 text))
    × (length (take 12 text) ≤ 12)
sock_ntop-Dotted_example =
    sock_ntop-Dotted hundredths local_host 1 12 (omega arith) (omega arith) (omega arith)
      (omega arith) (omega arith)
