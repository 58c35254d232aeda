-- ===== src/Text/Numbers/RoundTrip.antt =====
-- What is printed as a number is read back as that number.
use Prim.Native.Char.{Char, code}
use compute_kernel_python.Prelude.{
  ℕ, zero, suc, ◌+◌, ◌-◌, ◌*◌, ◌<◌, ◌≡◌, refl, sym, ap, ◌∙◌, String, Bool, true, false, not, ◌&&◌,
  ◌||◌, some, ℤ, pos, negsuc, neg, ltb, lt→leb, Bool-cases, inl, inr, arith,
}
use mathlib.Core.Option
use compute_kernel_python.Prelude.Eq.{◌==◌, nat_eq}
use compute_kernel_python.Paths.{◌<>◌, text_length}
use compute_kernel_python.Text.{is_space, rstrip, strip, repeat}
use compute_kernel_python.Text.Numbers.{
  Radix, ten, sixteen, radix_value, quotient, last_digit, digit_char, digits_onto, digits, show,
  show_ℤ, pad_zeros, digit_of, is_underscore, read_digits, drop_underscore, read_nat, read_signed,
  int_of,
}

abbrev is_sign : Char → Bool
is_sign c = code c == b'-' || code c == b'+'

-- What the digit of a number below 16 is.
digit_char_lem :
    (d : ℕ)
    → d < 16
    → (digit_of (digit_char d) ≡ d)
      × (is_underscore (digit_char d) ≡ false)
      × (is_space (code (digit_char d)) ≡ false)
      × (is_sign (digit_char d) ≡ false)
unfolding digit_of digit_char
digit_char_lem zero h = (refl, refl, refl, refl)
digit_char_lem (suc zero) h = (refl, refl, refl, refl)
digit_char_lem (suc (suc zero)) h = (refl, refl, refl, refl)
digit_char_lem (suc (suc (suc zero))) h = (refl, refl, refl, refl)
digit_char_lem (suc (suc (suc (suc zero)))) h = (refl, refl, refl, refl)
digit_char_lem (suc (suc (suc (suc (suc zero))))) h = (refl, refl, refl, refl)
digit_char_lem (suc (suc (suc (suc (suc (suc zero)))))) h = (refl, refl, refl, refl)
digit_char_lem (suc (suc (suc (suc (suc (suc (suc zero))))))) h = (refl, refl, refl, refl)
digit_char_lem (suc (suc (suc (suc (suc (suc (suc (suc zero)))))))) h = (refl, refl, refl, refl)
digit_char_lem (suc (suc (suc (suc (suc (suc (suc (suc (suc zero))))))))) h =
    (refl, refl, refl, refl)
digit_char_lem (suc (suc (suc (suc (suc (suc (suc (suc (suc (suc zero)))))))))) h =
    (refl, refl, refl, refl)
digit_char_lem (suc (suc (suc (suc (suc (suc (suc (suc (suc (suc (suc zero))))))))))) h =
    (refl, refl, refl, refl)
digit_char_lem (suc (suc (suc (suc (suc (suc (suc (suc (suc (suc (suc (suc zero)))))))))))) h =
    (refl, refl, refl, refl)
digit_char_lem (suc (suc (suc (suc (suc (suc (suc (suc (suc (suc (suc (suc (suc zero)))))))))))))
      h =
    (refl, refl, refl, refl)
digit_char_lem
      (suc (suc (suc (suc (suc (suc (suc (suc (suc (suc (suc (suc (suc (suc zero)))))))))))))) h =
    (refl, refl, refl, refl)
digit_char_lem
      (suc (suc (suc (suc (suc (suc (suc (suc (suc (suc (suc (suc (suc (suc (suc zero)))))))))))))))
      h =
    (refl, refl, refl, refl)
digit_char_lem
      (suc
        (suc (suc (suc (suc (suc (suc (suc (suc (suc (suc (suc (suc (suc (suc (suc d))))))))))))))))
      h =
    absurd (omega arith)

last_digit_lt : (r : Radix) (n : ℕ) → (last_digit r n < radix_value r) × (last_digit r n < 16)
last_digit_lt ten n = (omega arith, omega arith)
last_digit_lt sixteen n = (omega arith, omega arith)

quotient_lem : (r : Radix) (n : ℕ) → quotient r n * radix_value r + last_digit r n ≡ n
quotient_lem ten n = omega arith
quotient_lem sixteen n = omega arith

quotient_lt : (r : Radix) (n : ℕ) → ltb n (radix_value r) ≡ false → quotient r n < n
quotient_lt ten n h = ground arith
quotient_lt sixteen n h = ground arith

last_digit_small :
    (r : Radix) (n : ℕ) → ltb n (radix_value r) ≡ true → 0 * radix_value r + last_digit r n ≡ n
last_digit_small ten n h = ground arith
last_digit_small sixteen n h = ground arith

-- One digit is read.
read_digit :
    (r : Radix) (after : Bool) (d n : ℕ) (s : String)
    → d < radix_value r
    → d < 16
    → read_digits r after (String.◌∷◌ (digit_char d) s) n
      ≡ read_digits r true s (n * radix_value r + d)
unfolding read_digits
read_digit r after d n s h k =
    let (e, u, _, _) = digit_char_lem d k in rw (u, e, lt→leb (radix_value r) d h) refl

-- The digits of a number are read to that number, whatever was read before them.
read_digits-digits_onto :
    (r : Radix) (fuel n : ℕ) (after : Bool) (out : String)
    → n < fuel
    → read_digits r after (digits_onto r fuel n out) 0 ≡ read_digits r true out n
unfolding digits_onto
read_digits-digits_onto r zero n after out h = absurd (omega arith)
read_digits-digits_onto r (suc fuel) n after out h = elim (Bool-cases (ltb n (radix_value r))) [
  | inl e ↦
      let d = last_digit r n in
      let (small, digit) = last_digit_lt r n in
      rw (digits_onto, e)
        (read_digit r after d 0 out small digit
          ∙ ap (read_digits r true out) (last_digit_small r n e))
  | inr e ↦
      let (small, digit) = last_digit_lt r n in
      let less = quotient_lt r n e in
      rw (digits_onto, e)
        (read_digits-digits_onto r fuel (quotient r n) after
            (String.◌∷◌ (digit_char (last_digit r n)) out) (omega (arith, less, h))
          ∙ read_digit r true (last_digit r n) (quotient r n) out small digit
          ∙ ap (read_digits r true out) (quotient_lem r n))
]

abbrev spaceless : String → Bool
spaceless String.[] = true
spaceless (String.◌∷◌ c s) = not (is_space (code c)) && spaceless s

rstrip-spaceless : (s : String) → spaceless s ≡ true → rstrip s ≡ s
rstrip-spaceless String.[] h = refl
rstrip-spaceless (String.◌∷◌ c s) h = ground (arith, rstrip-spaceless s)

strip-spaceless : (s : String) → spaceless s ≡ true → strip s ≡ s
unfolding strip
strip-spaceless String.[] h = refl
strip-spaceless (String.◌∷◌ c s) h = ground (arith, rstrip-spaceless (String.◌∷◌ c s) h)

spaceless-digits_onto :
    (r : Radix) (fuel n : ℕ) (out : String)
    → spaceless out ≡ true
    → spaceless (digits_onto r fuel n out) ≡ true
unfolding digits_onto
spaceless-digits_onto r zero n out h = h
spaceless-digits_onto r (suc fuel) n out h =
    let (small, digit) = last_digit_lt r n in
    let (_, _, bare, _) = digit_char_lem (last_digit r n) digit in
    let more : spaceless (String.◌∷◌ (digit_char (last_digit r n)) out) ≡ true = rw bare h in
    elim (Bool-cases (ltb n (radix_value r))) [
      | inl e ↦ rw (digits_onto, e) more
      | inr e ↦
          rw (digits_onto, e)
            (spaceless-digits_onto r fuel (quotient r n)
              (String.◌∷◌ (digit_char (last_digit r n)) out) more)
    ]

-- A printed number begins with a digit.
digits_onto_head :
    (r : Radix) (fuel n : ℕ) (out : String)
    → n < fuel
    → (d : ℕ) × (s : String) × (d < 16) × (digits_onto r fuel n out ≡ String.◌∷◌ (digit_char d) s)
unfolding digits_onto
digits_onto_head r zero n out h = absurd (omega arith)
digits_onto_head r (suc fuel) n out h = elim (Bool-cases (ltb n (radix_value r))) [
  | inl e ↦ (last_digit r n, out, (last_digit_lt r n).1, rw (digits_onto, e) refl)
  | inr e ↦
      let less = quotient_lt r n e in
      let (d, s, small, q) =
        digits_onto_head r fuel (quotient r n) (String.◌∷◌ (digit_char (last_digit r n)) out)
          (omega (arith, less, h)) in
      (d, s, small, rw (digits_onto, e) q)
]

read_signed-digit :
    (r : Radix) (d : ℕ) (s : String)
    → d < 16
    → read_signed r (String.◌∷◌ (digit_char d) s)
      ≡ Option.map pos (read_nat r (String.◌∷◌ (digit_char d) s))
unfolding read_signed
read_signed-digit r d s h = let (_, _, _, unsigned) = digit_char_lem d h in ground (arith, unsigned)

spaceless-digits : (r : Radix) (n : ℕ) → spaceless (digits r n) ≡ true
unfolding digits
spaceless-digits r n = spaceless-digits_onto r (suc n) n "" refl

digits_head :
    (r : Radix) (n : ℕ)
    → (d : ℕ) × (s : String) × (d < 16) × (digits r n ≡ String.◌∷◌ (digit_char d) s)
unfolding digits
digits_head r n = digits_onto_head r (suc n) n "" (omega arith)

read_digits-digits :
    (r : Radix) (n : ℕ) (after : Bool) → read_digits r after (digits r n) 0 ≡ some n
unfolding digits read_digits
read_digits-digits r n after = read_digits-digits_onto r (suc n) n after "" (omega arith)

int_of-show : (n : ℕ) → int_of ten (show n) ≡ some (pos n)
unfolding int_of read_nat
int_of-show n =
    let (d, s, small, e) = digits_head ten n in
    ap (read_signed ten) (strip-spaceless (show n) (spaceless-digits ten n) ∙ e)
    ∙ read_signed-digit ten d s small
    ∙ ap (λ t. Option.map pos (read_digits ten false t 0)) (sym e)
    ∙ ap (Option.map pos) (read_digits-digits ten n false)

-- `int(str(z))` is `z`, for every integer.
pub int_of-show_ℤ : (z : ℤ) → int_of ten (show_ℤ z) ≡ some z
unfolding int_of read_nat read_signed
int_of-show_ℤ (pos n) = int_of-show n
int_of-show_ℤ (negsuc n) =
    ap (read_signed ten) (strip-spaceless ("-" <> show (suc n)) (spaceless-digits ten (suc n)))
    ∙ ap (Option.map neg) (read_digits-digits ten (suc n) false)

spaceless-pad : (k : ℕ) (s : String) → spaceless (repeat k "0" <> s) ≡ spaceless s
spaceless-pad zero s = refl
spaceless-pad (suc k) s = spaceless-pad k s

-- Zeros before the digits change nothing.
read_digits-pad :
    (k n : ℕ) (after : Bool)
    → read_digits sixteen after (repeat k "0" <> digits sixteen n) 0 ≡ some n
unfolding read_digits digit_of
read_digits-pad zero n after = read_digits-digits sixteen n after
read_digits-pad (suc k) n after = read_digits-pad k n true

drop_underscore-pad :
    (k n : ℕ)
    → drop_underscore (repeat k "0" <> digits sixteen n) ≡ repeat k "0" <> digits sixteen n
drop_underscore-pad zero n =
    let (d, s, small, e) = digits_head sixteen n in
    let (_, plain, _, _) = digit_char_lem d small in rw e (rw plain refl)
drop_underscore-pad (suc k) n = refl

-- `int("0x" + digits, 16)`, whatever width the digits are filled up to.
pub int_of-prefixed :
    (w n : ℕ) → int_of sixteen ("0x" <> pad_zeros w (digits sixteen n)) ≡ some (pos n)
unfolding int_of read_nat read_signed
int_of-prefixed w n =
    let k = w - text_length (digits sixteen n) in
    let text = repeat k "0" <> digits sixteen n in
    ap (read_signed sixteen) (
      strip-spaceless ("0x" <> text)
        (spaceless-pad k (digits sixteen n) ∙ spaceless-digits sixteen n))
    ∙ ap (λ t. Option.map pos (read_digits sixteen false t 0)) (drop_underscore-pad k n)
    ∙ ap (Option.map pos) (read_digits-pad k n false)
