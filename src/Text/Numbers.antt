-- ===== src/Text/Numbers.antt =====
-- `str(n)`, hexadecimal digits, and `int(s)` and `int(s, 16)`.
pub mod RoundTrip
use Prim.Native.Char.{Char, code, nul}
use compute_kernel_python.Prelude.{
  ℕ, zero, suc, ◌+◌, ◌-◌, ◌*◌, ◌/◌, ◌%◌, String, Bool, true, false, not, ◌&&◌, ◌||◌, Option, none,
  some, ℤ, pos, negsuc, neg, ltb, leb, if◌then◌else◌,
}
use mathlib.Core.Option
use compute_kernel_python.Prelude.Eq.{◌==◌, nat_eq}
use compute_kernel_python.Paths.{◌<>◌, text_length}
use compute_kernel_python.Text.{strip, repeat}

pub data Radix : Type 0 where
  ten sixteen : Radix

abbrev pub radix_value : Radix → ℕ
radix_value ten = 10
radix_value sixteen = 16

abbrev pub quotient : Radix → ℕ → ℕ
quotient ten n = n / 10
quotient sixteen n = n / 16

abbrev pub last_digit : Radix → ℕ → ℕ
last_digit ten n = n % 10
last_digit sixteen n = n % 16

abbrev nth_char : ℕ → String → Char
nth_char n String.[] = nul
nth_char zero (String.◌∷◌ c s) = c
nth_char (suc n) (String.◌∷◌ c s) = nth_char n s

unfoldable pub digit_char : ℕ → Char
digit_char d = nth_char d "0123456789abcdef"

-- The digits of `n` before a text. The fuel is any number above `n`.
unfoldable pub digits_onto : Radix → ℕ → ℕ → String → String
digits_onto r zero n out = out
digits_onto r (suc fuel) n out =
    let c = digit_char (last_digit r n) in
    elim (ltb n (radix_value r)) [
      | true ↦ String.◌∷◌ c out
      | false ↦ digits_onto r fuel (quotient r n) (String.◌∷◌ c out)
    ]

unfoldable pub digits : Radix → ℕ → String
digits r n = digits_onto r (suc n) n ""

-- `str(n)`
abbrev pub show : ℕ → String
show n = digits ten n

abbrev pub show_ℤ : ℤ → String
show_ℤ (pos n) = show n
show_ℤ (negsuc n) = "-" <> show (suc n)

-- `f"{s:0>n}"`, for digits: zeros fill the text up to a width.
abbrev pub pad_zeros : ℕ → String → String
pad_zeros n s = repeat (n - text_length s) "0" <> s

-- What a character stands for as a digit, or 36.
unfoldable pub digit_of : Char → ℕ
digit_of c =
    if leb b'0' (code c) && leb (code c) b'9'
    then code c - b'0'
    else if leb b'a' (code c) && leb (code c) b'z'
    then 10 + (code c - b'a')
    else if leb b'A' (code c) && leb (code c) b'Z'
    then 10 + (code c - b'A')
    else 36

abbrev pub is_underscore : Char → Bool
is_underscore c = code c == b'_'

-- The digits of a number, which single underscores may part; the flag says that a digit stands
-- before.
unfoldable pub read_digits : Radix → Bool → String → ℕ → Option ℕ
read_digits r after String.[] n = if after then some n else none
read_digits r after (String.◌∷◌ c s) n =
    let d = digit_of c in
    let rest =
      read_digits r (not (is_underscore c)) s
        (if is_underscore c then n else n * radix_value r + d) in
    if is_underscore c
    then if after then rest else none
    else if leb (radix_value r) d
    then none
    else rest

abbrev pub drop_underscore : String → String
drop_underscore String.[] = String.[]
drop_underscore (String.◌∷◌ c s) = if is_underscore c then s else String.◌∷◌ c s

abbrev pub is_x : Char → Bool
is_x c = code c == b'x' || code c == b'X'

-- What comes after `0x`, which is let pass in base 16.
abbrev pub unprefixed : Radix → String → String
unprefixed ten s = s
unprefixed sixteen String.[] = String.[]
unprefixed sixteen (String.◌∷◌ c String.[]) = String.◌∷◌ c String.[]
unprefixed sixteen (String.◌∷◌ c (String.◌∷◌ x s)) =
    if code c == b'0' && is_x x then drop_underscore s else String.◌∷◌ c (String.◌∷◌ x s)

unfoldable pub read_nat : Radix → String → Option ℕ
read_nat r s = read_digits r false (unprefixed r s) 0

read_signed : Radix → String → Option ℤ
read_signed r String.[] = none
read_signed r (String.◌∷◌ c s) =
    if code c == b'-'
    then Option.map neg (read_nat r s)
    else if code c == b'+'
    then Option.map pos (read_nat r s)
    else Option.map pos (read_nat r (String.◌∷◌ c s))

-- `int(s)` and `int(s, 16)`; `none` is a `ValueError`.
unfoldable pub int_of : Radix → String → Option ℤ
unfolding read_signed
int_of r s = read_signed r (strip s)
