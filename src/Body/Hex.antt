-- ===== src/Body/Hex.antt =====
-- The size of a chunk, written by `format_hex` (src/connection.rs) and read back by `read_chunked`
-- (src/body.rs).
use mhttp.Common.{
  ℕ, zero, suc, ◌+◌, ◌*◌, ◌/◌, ◌%◌, ◌≤◌, ◌<◌, ◌≡◌, ◌≢◌, refl, ◌∙◌, ap, false, some, [], ◌∷◌, ◌++◌,
  Bytes, codes, ◌==◌, arith, All, lt→ltb, Bool-cases, inl, inr,
}
use mhttp.Body.{usize_mod, hex_value, parse_digits, hex_digit, hex_loop, format_hex}

abbrev pow16 : ℕ → ℕ
pow16 zero = 1
pow16 (suc n) = 16 * pow16 n

hex_value-hex_digit : (d : ℕ) → d < 16 → hex_value (hex_digit d) ≡ some d
unfolding hex_value hex_digit
hex_value-hex_digit d h = ground arith

-- The digits of a number are read back to it, whatever follows.
parse_digits-hex_loop :
    (fuel val : ℕ) (buf : Bytes)
    → val < pow16 fuel
    → val < usize_mod
    → parse_digits 0 (hex_loop fuel val buf) ≡ parse_digits val buf
unfolding parse_digits hex_loop
parse_digits-hex_loop zero val buf fits small =
    let none_left : val ≡ 0 = omega arith in rw none_left refl
parse_digits-hex_loop (suc fuel) val buf fits small = elim (Bool-cases (val == 0)) [
  | inl e ↦ rw e (ap (λ n. parse_digits n buf) (ground arith))
  | inr e ↦
      let digit = hex_digit (val % 16) in
      let rest = parse_digits-hex_loop fuel (val / 16) (digit ∷ buf) (omega arith) (omega arith) in
      let back : val / 16 * 16 + val % 16 ≡ val = omega arith in
      let read = hex_value-hex_digit (val % 16) (omega arith) in
      let step : parse_digits (val / 16) (digit ∷ buf) ≡ parse_digits val buf =
        rw (parse_digits, read, back, lt→ltb val usize_mod small) refl in
      rw e (rest ∙ step)
]

hex_loop-append :
    (fuel val : ℕ) (buf t : Bytes) → hex_loop fuel val (buf ++ t) ≡ hex_loop fuel val buf ++ t
unfolding hex_loop
hex_loop-append zero val buf t = refl
hex_loop-append (suc fuel) val buf t = elim (Bool-cases (val == 0)) [
  | inl e ↦ rw e refl
  | inr e ↦ rw e (hex_loop-append fuel (val / 16) (hex_digit (val % 16) ∷ buf) t)
]

-- Neither white space nor a semicolon nor a sign
abbrev pub Plain : ℕ → Type 0
Plain c = (48 ≤ c) × (c < 128) × (c ≢ 59)

==_false : (a b : ℕ) → a ≢ b → (a == b) ≡ false
==_false a b h = ground arith

hex_digit-Plain : (d : ℕ) → d < 16 → Plain (hex_digit d)
unfolding hex_digit
hex_digit-Plain d h = (ground arith, ground arith, ground arith)

hex_loop-Plain : (fuel val : ℕ) (buf : Bytes) → All Plain buf → All Plain (hex_loop fuel val buf)
unfolding hex_loop
hex_loop-Plain zero val buf h = h
hex_loop-Plain (suc fuel) val buf h = elim (Bool-cases (val == 0)) [
  | inl e ↦ rw e h
  | inr e ↦ rw e (
      hex_loop-Plain fuel (val / 16) (hex_digit (val % 16) ∷ buf)
        (hex_digit-Plain (val % 16) (omega arith), h))
]

format_hex-hex_loop : (n : ℕ) → n ≢ 0 → format_hex n ≡ hex_loop 16 n (codes "\r\n")
unfolding format_hex
format_hex-hex_loop n h = rw (==_false n 0 h) refl

-- The digits of a size, and what is known of them.
pub format_hex_digits :
    (n : ℕ)
    → n ≢ 0
    → n < usize_mod
    → (digits : Bytes) × (format_hex n ≡ digits ++ codes "\r\n")
      × All Plain digits
      × (parse_digits 0 digits ≡ some n)
unfolding parse_digits
format_hex_digits n h small = (
  hex_loop 16 n [],
  format_hex-hex_loop n h ∙ hex_loop-append 16 n [] (codes "\r\n"),
  hex_loop-Plain 16 n [] tt,
  parse_digits-hex_loop 16 n [] small small,
)
