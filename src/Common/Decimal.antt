-- ===== src/Common/Decimal.antt =====
-- Numbers in decimal: `u64::to_string`, and `str::parse` for `u64` and `usize`.
use mhttp.Common.{
  ℕ, zero, suc, ◌+◌, ◌-◌, ◌*◌, ◌/◌, ◌%◌, ◌^◌, ◌≤◌, ◌<◌, ◌≡◌, ◌≢◌, refl, sym, ap, ◌∙◌, Bool, true,
  false, ◌&&◌, Option, none, some, [], ◌∷◌, Bytes, ltb, leb, ◌==◌, if◌then◌else◌, arith, Bool-cases,
  inl, inr, All,
}

abbrev pub u64_mod : ℕ
u64_mod = 2 ^ 64

-- Digits in front of what is written already; a `u64` has twenty at most.
unfoldable pub digits : ℕ → ℕ → Bytes → Bytes
digits zero n s = s
digits (suc fuel) n s =
    let rest = digits fuel (n / 10) ((b'0' + n % 10) ∷ s) in if n == 0 then s else rest

unfoldable pub to_decimal : ℕ → Bytes
unfolding digits
to_decimal n = if n == 0 then b'0' ∷ [] else digits 20 n []

abbrev pub is_digit : ℕ → Bool
is_digit c = leb b'0' c && leb c b'9'

unfoldable pub parse_digits : ℕ → Bytes → Option ℕ
parse_digits n [] = some n
parse_digits n (c ∷ s) =
    let m = n * 10 + (c - b'0') in
    let rest = parse_digits m s in if is_digit c && ltb m u64_mod then rest else none

-- `s.parse::<u64>().ok()`: one `+` may stand in front of the digits
unfoldable pub parse_decimal : Bytes → Option ℕ
unfolding parse_digits
parse_decimal [] = none
parse_decimal (c ∷ []) = parse_digits 0 (c ∷ [])
parse_decimal (c ∷ d ∷ s) = if c == b'+' then parse_digits 0 (d ∷ s) else parse_digits 0 (c ∷ d ∷ s)

abbrev pow10 : ℕ → ℕ
pow10 zero = 1
pow10 (suc n) = 10 * pow10 n

parse_digits-digits :
    (fuel n : ℕ) (s : Bytes)
    → n < pow10 fuel
    → n < u64_mod
    → parse_digits 0 (digits fuel n s) ≡ parse_digits n s
unfolding parse_digits digits
parse_digits-digits zero n s fits small = let none_left : n ≡ 0 = omega arith in rw none_left refl
parse_digits-digits (suc fuel) n s fits small = elim (Bool-cases (n == 0)) [
  | inl e ↦ let done : n ≡ 0 = ground arith in rw (e, done) refl
  | inr e ↦
      let c = b'0' + n % 10 in
      let back : n / 10 * 10 + (c - b'0') ≡ n = omega arith in
      let good : (is_digit c && ltb (n / 10 * 10 + (c - b'0')) u64_mod) ≡ true = ground arith in
      let step : parse_digits (n / 10) (c ∷ s) ≡ parse_digits n s = rw (good, back) refl in
      rw e (parse_digits-digits fuel (n / 10) (c ∷ s) (omega arith) (omega arith) ∙ step)
]

-- A decimal digit
abbrev pub IsDigit : ℕ → Type 0
IsDigit c = (b'0' ≤ c) × (c ≤ b'9')

digits-IsDigit : (fuel n : ℕ) (s : Bytes) → All IsDigit s → All IsDigit (digits fuel n s)
unfolding digits
digits-IsDigit zero n s h = h
digits-IsDigit (suc fuel) n s h = elim (Bool-cases (n == 0)) [
  | inl e ↦ rw e h
  | inr e ↦
      rw e (digits-IsDigit fuel (n / 10) ((b'0' + n % 10) ∷ s) ((omega arith, omega arith), h))
]

to_decimal-zero : to_decimal 0 ≡ b'0' ∷ []
unfolding to_decimal
to_decimal-zero = refl

to_decimal-digits : (n : ℕ) → (n == 0) ≡ false → to_decimal n ≡ digits 20 n []
unfolding to_decimal
to_decimal-digits n e = rw e refl

pub to_decimal-IsDigit : (n : ℕ) → All IsDigit (to_decimal n)
to_decimal-IsDigit n = elim (Bool-cases (n == 0)) [
  | inl e ↦
      let is_zero : n ≡ 0 = ground arith in
      rw (is_zero, to_decimal-zero) ((omega arith, omega arith), tt)
  | inr e ↦ rw (to_decimal-digits n e) (digits-IsDigit 20 n [] tt)
]

parse_plain : (s : Bytes) → All IsDigit s → s ≢ [] → parse_decimal s ≡ parse_digits 0 s
unfolding parse_decimal
parse_plain [] h e = absurd (e refl)
parse_plain (c ∷ []) h e = refl
parse_plain (c ∷ d ∷ s) (p, h) e = ground arith

zero_read : parse_digits 0 (b'0' ∷ []) ≡ some 0
unfolding parse_digits
zero_read = refl

parse_end : (n : ℕ) → parse_digits n [] ≡ some n
unfolding parse_digits
parse_end n = refl

digits_read : (n : ℕ) → n < u64_mod → parse_digits 0 (to_decimal n) ≡ some n
digits_read n small = elim (Bool-cases (n == 0)) [
  | inl e ↦ let is_zero : n ≡ 0 = ground arith in rw (is_zero, to_decimal-zero) zero_read
  | inr e ↦
      rw (to_decimal-digits n e) (parse_digits-digits 20 n [] (omega arith) small ∙ parse_end n)
]

zero_written : to_decimal 0 ≢ []
unfolding to_decimal
zero_written e = cc

not_empty : (n : ℕ) → n < u64_mod → to_decimal n ≢ []
not_empty n small e = elim (Bool-cases (n == 0)) [
  | inl is_zero ↦ let z : n ≡ 0 = ground arith in zero_written (sym (ap to_decimal z) ∙ e)
  | inr more ↦
      let z : some 0 ≡ some n =
        sym (parse_end 0) ∙ ap (parse_digits 0) (sym e) ∙ digits_read n small in
      ground arith
]

-- What is written is read back.
pub parse_decimal-to_decimal : (n : ℕ) → n < u64_mod → parse_decimal (to_decimal n) ≡ some n
parse_decimal-to_decimal n small =
    parse_plain (to_decimal n) (to_decimal-IsDigit n) (not_empty n small) ∙ digits_read n small
