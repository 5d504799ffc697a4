-- ===== src/Common/Trim.antt =====
-- `str::trim` on UTF-8 bytes: characters with the Unicode property White_Space go from both ends.
use mathlib.Core.List.{reverse}
use mhttp.Common.{
  ℕ, zero, suc, Bool, ◌&&◌, ◌||◌, Bytes, length, drop, leb, ◌==◌, if◌then◌else◌, get_elem?, some,
  none,
}

abbrev byte_at : ℕ → Bytes → ℕ
byte_at i s = elim (get_elem? s i) [ some b ↦ b | none ↦ 0 ]

abbrev pub ascii_white : ℕ → Bool
ascii_white c = (leb 0x09 c && leb c 0x0D) || c == 0x20

-- U+0085, U+00A0
abbrev white2 : ℕ → ℕ → Bool
white2 a b = a == 0xC2 && (b == 0x85 || b == 0xA0)

-- U+1680, U+2000 to U+200A, U+2028, U+2029, U+202F, U+205F, U+3000
abbrev white3 : ℕ → ℕ → ℕ → Bool
white3 a b c =
    (a == 0xE1 && (b == 0x9A && c == 0x80))
    || ((a == 0xE2
          && ((b == 0x80 && ((leb 0x80 c && leb c 0x8A) || (c == 0xA8 || (c == 0xA9 || c == 0xAF))))
              || (b == 0x81 && c == 0x9F)))
        || (a == 0xE3 && (b == 0x80 && c == 0x80)))

-- The length of a white space character in front, 0 if there is none.
unfoldable pub white_front : Bytes → ℕ
white_front s =
    if ascii_white (byte_at 0 s)
    then 1
    else if white2 (byte_at 0 s) (byte_at 1 s)
    then 2
    else if white3 (byte_at 0 s) (byte_at 1 s) (byte_at 2 s)
    then 3
    else 0

-- The same at the end of a text that is given backwards.
unfoldable pub white_back : Bytes → ℕ
white_back s =
    if ascii_white (byte_at 0 s)
    then 1
    else if white2 (byte_at 1 s) (byte_at 0 s)
    then 2
    else if white3 (byte_at 2 s) (byte_at 1 s) (byte_at 0 s)
    then 3
    else 0

-- Each round drops one character; the number of bytes is fuel enough.
unfoldable pub strip : (Bytes → ℕ) → ℕ → Bytes → Bytes
strip white zero s = s
strip white (suc fuel) s = elim (white s) [ zero ↦ s | suc n ↦ strip white fuel (drop (suc n) s) ]

unfoldable pub trim_start : Bytes → Bytes
unfolding strip white_front
trim_start s = strip white_front (length s) s

unfoldable pub trim_end : Bytes → Bytes
unfolding strip white_back
trim_end s = let back = reverse s in reverse (strip white_back (length back) back)

unfoldable pub trim : Bytes → Bytes
unfolding trim_start trim_end
trim s = trim_end (trim_start s)
