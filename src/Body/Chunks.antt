-- ===== src/Body/Chunks.antt =====
-- Chunks that `Connection::write_body` (src/connection.rs) writes are read back by
-- `Body::read_chunked` (src/body.rs), however the transport cuts them.
use mathlib.Core.List.{reverse, reverse-append, reverse_aux, reverse-reverse}
use mhttp.Common.{
  ℕ, zero, suc, ◌<◌, ◌≡◌, ◌≢◌, refl, ◌∙◌, ap, some, [], ◌∷◌, ◌++◌, Bytes, codes, length, arith, All,
  Lacks, split,
}
use mhttp.Common.Utf8.{is_utf8-ascii}
use mhttp.Common.Trim.{trim, trim_start, trim_end, strip, white_front, white_back}
use mhttp.Input.{ok}
use mhttp.Body.{parse_digits, from_str_radix, chunk_size_of}
use mhttp.Body.Hex.{Plain}

Plain-front_of : (c : ℕ) (s : Bytes) → Plain c → white_front (c ∷ s) ≡ 0
unfolding white_front
Plain-front_of c s p = ground arith

Plain-back : (s : Bytes) → All Plain s → white_back s ≡ 0
unfolding white_back
Plain-back [] h = refl
Plain-back (c ∷ s) h = ground arith

strip_none : (white : Bytes → ℕ) (fuel : ℕ) (s : Bytes) → white s ≡ 0 → strip white fuel s ≡ s
unfolding strip
strip_none white zero s h = refl
strip_none white (suc fuel) s h = rw (h, strip) refl

All-reverse_aux : (s t : Bytes) → All Plain s → All Plain t → All Plain (reverse_aux s t)
All-reverse_aux [] t h k = k
All-reverse_aux (c ∷ s) t (p, h) k = All-reverse_aux s (c ∷ t) h (p, k)

crlf_back :
    (s : Bytes)
    → All Plain s
    → strip white_back (length (b'\n' ∷ b'\r' ∷ s)) (b'\n' ∷ b'\r' ∷ s) ≡ s
unfolding strip white_back
crlf_back s h = strip_none white_back (length s) s (Plain-back s h)

trim_start-Plain : (c : ℕ) (s : Bytes) → Plain c → trim_start (c ∷ s) ≡ c ∷ s
unfolding trim_start
trim_start-Plain c s p = strip_none white_front (length (c ∷ s)) (c ∷ s) (Plain-front_of c s p)

trim_end-Plain : (s : Bytes) → All Plain s → trim_end s ≡ s
unfolding trim_end
trim_end-Plain s h =
    ap reverse (
      strip_none white_back (length (reverse s)) (reverse s)
        (Plain-back (reverse s) (All-reverse_aux s [] h tt)))
    ∙ reverse-reverse s

trim_end_crlf : (s : Bytes) → All Plain s → trim_end (s ++ codes "\r\n") ≡ s
unfolding trim_end
trim_end_crlf s h =
    ap (λ r. reverse (strip white_back (length r) r)) (reverse-append s (codes "\r\n"))
    ∙ ap reverse (crlf_back (reverse s) (All-reverse_aux s [] h tt))
    ∙ reverse-reverse s

split-Plain : (s : Bytes) → All Plain s → split b';' s ≡ s ∷ []
unfolding split
split-Plain [] h = refl
split-Plain (c ∷ s) (p, h) = ground (arith, split-Plain s h)

pub All-Plain-Lacks : (c : ℕ) → ((b : ℕ) → Plain b → b ≢ c) → (s : Bytes) → All Plain s → Lacks c s
All-Plain-Lacks c f [] h = tt
All-Plain-Lacks c f (b ∷ s) (p, h) = (f b p, All-Plain-Lacks c f s h)

size_line_utf8 : (s : Bytes) → All Plain s → All (λ b. b < 0x80) (s ++ codes "\r\n")
size_line_utf8 [] h = (omega arith, (omega arith, tt))
size_line_utf8 (b ∷ s) (p, h) = (p.1, size_line_utf8 s h)

from_str_radix-Plain :
    (c : ℕ) (s : Bytes) → Plain c → from_str_radix (c ∷ s) ≡ parse_digits 0 (c ∷ s)
unfolding from_str_radix
from_str_radix-Plain c [] p = refl
from_str_radix-Plain c (d ∷ s) p = ground arith

-- The size of a chunk is read as it was written.
pub size_lem :
    (digits : Bytes) (n : ℕ)
    → All Plain digits
    → n ≢ 0
    → parse_digits 0 digits ≡ some n
    → chunk_size_of (digits ++ codes "\r\n") ≡ ok n
unfolding parse_digits chunk_size_of
size_lem [] n h nonzero e = absurd (ground arith)
size_lem (c ∷ s) n h nonzero e =
    let once = trim_start-Plain c (s ++ codes "\r\n") h.0 in
    let cut = trim_end_crlf (c ∷ s) h in
    let again = trim_start-Plain c s h.0 in
    let whole = trim_end-Plain (c ∷ s) h in
    rw
      (
        chunk_size_of,
        is_utf8-ascii ((c ∷ s) ++ codes "\r\n") (size_line_utf8 (c ∷ s) h),
        trim,
        once,
        cut,
        split-Plain (c ∷ s) h,
        again,
        whole,
        from_str_radix-Plain c s h.0,
        e,
      )
      refl
