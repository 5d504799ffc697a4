-- ===== src/Common/Utf8.antt =====
-- `std::str::from_utf8` as an automaton over bytes (RFC 3629: no overlong forms, no surrogates).
use mhttp.Common.{
  ℕ, zero, suc, ◌≡◌, refl, Bool, true, false, ◌&&◌, Option, none, some, [], ◌∷◌, ◌++◌, Bytes, leb,
  ltb, ◌==◌, if◌then◌else◌, ◌>>=◌, All, lt→ltb, ◌<◌,
}

pub data Utf8State : Type 0 where
  start : Utf8State
  -- the next byte lies in a range, and so many continuation bytes follow it
  more : (lo hi : ℕ) (left : ℕ) → Utf8State

abbrev within : ℕ → ℕ → ℕ → Bool
within lo hi b = leb lo b && leb b hi

abbrev after_more : ℕ → Utf8State
after_more zero = start
after_more (suc n) = more 0x80 0xBF n

unfoldable pub utf8_step : Utf8State → ℕ → Option Utf8State
utf8_step start b =
    if ltb b 0x80
    then some start
    else if within 0xC2 0xDF b
    then some (more 0x80 0xBF 0)
    else if b == 0xE0
    then some (more 0xA0 0xBF 1)
    else if b == 0xED
    then some (more 0x80 0x9F 1)
    else if within 0xE1 0xEF b
    then some (more 0x80 0xBF 1)
    else if b == 0xF0
    then some (more 0x90 0xBF 2)
    else if within 0xF1 0xF3 b
    then some (more 0x80 0xBF 2)
    else if b == 0xF4
    then some (more 0x80 0x8F 2)
    else none
utf8_step (more lo hi n) b = if within lo hi b then some (after_more n) else none

unfoldable pub utf8_run : Utf8State → Bytes → Option Utf8State
utf8_run st [] = some st
utf8_run st (b ∷ s) = utf8_step st b >>= λ next. utf8_run next s

abbrev is_start : Option Utf8State → Bool
is_start (some start) = true
is_start _ = false

-- `std::str::from_utf8(s).is_ok()`
unfoldable pub is_utf8 : Bytes → Bool
unfolding utf8_run utf8_step
is_utf8 s = is_start (utf8_run start s)

utf8_run-append :
    (st : Utf8State) (s t : Bytes)
    → utf8_run st (s ++ t) ≡ (utf8_run st s >>= λ next. utf8_run next t)
unfolding utf8_run
utf8_run-append st [] t = refl
utf8_run-append st (b ∷ s) t =
    elim (utf8_step st b)
      as (λ o.
        (o >>= λ next. utf8_run next (s ++ t))
        ≡ ((o >>= λ next. utf8_run next s) >>= λ next. utf8_run next t)) [
          | none ↦ refl
          | some next ↦ utf8_run-append next s t
        ]

is_start_inv : (o : Option Utf8State) → is_start o ≡ true → o ≡ some start
is_start_inv none h = absurd (cc)
is_start_inv (some start) h = refl
is_start_inv (some (more lo hi n)) h = absurd (cc)

-- Valid texts concatenate to a valid text.
pub is_utf8-append : (s t : Bytes) → is_utf8 s ≡ true → is_utf8 t ≡ true → is_utf8 (s ++ t) ≡ true
unfolding is_utf8
is_utf8-append s t h k = rw (utf8_run-append start s t, is_start_inv (utf8_run start s) h) k

utf8_run-ascii : (s : Bytes) → All (λ b. b < 0x80) s → utf8_run start s ≡ some start
unfolding utf8_run utf8_step
utf8_run-ascii [] h = refl
utf8_run-ascii (b ∷ s) (p, h) = rw (lt→ltb b 0x80 p) (utf8_run-ascii s h)

-- ASCII is UTF-8.
pub is_utf8-ascii : (s : Bytes) → All (λ b. b < 0x80) s → is_utf8 s ≡ true
unfolding is_utf8
is_utf8-ascii s h = rw (utf8_run-ascii s h) refl
