-- ===== src/Body/Allowed.antt =====
-- What each step of `Body::read_chunked` (src/body.rs) may do: it fails, or it takes bytes off the input.
use mhttp.Common.{
  ℕ, ◌+◌, ◌≤◌, ◌<◌, ◌≡◌, ◌≢◌, refl, sym, Bool, true, false, Option, none, some, List, [], ◌∷◌, ◌++◌,
  Bytes, codes, if◌then◌else◌, length, arith, ltb, append_assoc, length-append, length-take,
  length-drop, drop, memchr, memchr_lt, bytes_eq,
}
use mhttp.Input.{
  Event, received, failed, silent, io, no_fuel, missing_crlf, Input, Result, ok, err, ◌>>=◌, fill,
  read_line, cut_line, split_to,
}
use mhttp.Input.Reads.{arriving, whole}
use mhttp.Common.Utf8.{is_utf8}
use mhttp.Body.{number_or_err, chunk_size_of, take_exact, expect_crlf, skip_line, cut_trailer}

module _ {ℓ} {A : Type ℓ} (P : A → Type 0) where
  -- What a step may do: fail, but not for want of fuel, or go on with what it promises.
  unfoldable pub Allowed : Result A → Type 0
  Allowed (err e) = e ≢ no_fuel
  Allowed (ok a) = P a

module _ {ℓ κ} {A : Type ℓ} {B : Type κ} (P : A → Type 0) (Q : B → Type 0) where
  pub Allowed-bind :
      (step : Result A) (next : A → Result B)
      → Allowed P step
      → ((a : A) → P a → Allowed Q (next a))
      → Allowed Q (step >>= next)
  unfolding Allowed
  Allowed-bind (err e) next failed_well go_on = failed_well
  Allowed-bind (ok a) next met go_on = go_on a met

pub Allowed-if {ℓ} :
    {A : Type ℓ} (P : A → Type 0) (b : Bool) (r s : Result A)
    → (b ≡ true → Allowed P r)
    → (b ≡ false → Allowed P s)
    → Allowed P (if b then r else s)
Allowed-if P true r s f g = f refl
Allowed-if P false r s f g = g refl

-- The bytes that are still to be taken.
unfoldable pub left : Input → ℕ
unfolding whole
left c = length (whole c)

abbrev pub Filled : ℕ → ℕ → Input → Type 0
Filled n total d = (left d ≤ total) × (n ≤ length d.reader)

pub fill-Allowed :
    (n : ℕ) (reader : Bytes) (events : List Event)
    → Allowed (Filled n (length (reader ++ arriving events))) (fill n reader events)
unfolding fill arriving left Allowed
fill-Allowed n reader [] =
    Allowed-if _ (ltb (length reader) n) _ _ (λ e k. cc) (λ e. (omega arith, ground arith))
fill-Allowed n reader (silent ∷ events) =
    Allowed-if _ (ltb (length reader) n) _ _ (λ e. fill-Allowed n reader events)
      (λ e. (omega arith, ground arith))
fill-Allowed n reader (failed ∷ events) =
    Allowed-if _ (ltb (length reader) n) _ _ (λ e k. cc) (λ e. (omega arith, ground arith))
fill-Allowed n reader (received [] ∷ events) =
    Allowed-if _ (ltb (length reader) n) _ _ (λ e k. cc) (λ e. (omega arith, ground arith))
fill-Allowed n reader (received (b ∷ s) ∷ events) =
    Allowed-if _ (ltb (length reader) n) _ _
      (λ e.
        rw (sym (append_assoc reader (b ∷ s) (arriving events)))
          (fill-Allowed n (reader ++ b ∷ s) events))
      (λ e. (omega arith, ground arith))

abbrev pub Cut : ℕ → Bytes × Input → Type 0
Cut total (l, d) = left d < total

pub cut_line-Allowed :
    (o : Option ℕ) (reader : Bytes) (events : List Event) (more : Result (Bytes × Input))
    → o ≡ memchr b'\n' reader
    → Allowed (Cut (length (reader ++ arriving events))) more
    → Allowed (Cut (length (reader ++ arriving events))) (cut_line o reader events more)
unfolding cut_line Allowed left
cut_line-Allowed none reader events more e h = h
cut_line-Allowed (some p) reader events more e h = omega (
  arith,
  memchr_lt b'\n' reader p (sym e),
  length-append (drop (p + 1) reader) (arriving events),
  length-append reader (arriving events),
  length-drop (p + 1) reader,
)

pub read_line-Allowed :
    (reader : Bytes) (events : List Event)
    → Allowed (Cut (length (reader ++ arriving events))) (read_line reader events)
unfolding read_line Allowed arriving
read_line-Allowed reader [] = cut_line-Allowed _ reader [] _ refl (λ k. cc)
read_line-Allowed reader (silent ∷ events) =
    cut_line-Allowed _ reader (silent ∷ events) _ refl (read_line-Allowed reader events)
read_line-Allowed reader (failed ∷ events) =
    cut_line-Allowed _ reader (failed ∷ events) _ refl (λ k. cc)
read_line-Allowed reader (received [] ∷ events) =
    cut_line-Allowed _ reader (received [] ∷ events) _ refl (λ k. cc)
read_line-Allowed reader (received (b ∷ s) ∷ events) =
    cut_line-Allowed _ reader (received (b ∷ s) ∷ events) _ refl (
      rw (sym (append_assoc reader (b ∷ s) (arriving events)))
        (read_line-Allowed (reader ++ b ∷ s) events))

abbrev pub Any : Input → Type 0
Any d = Unit {0}

pub cut_trailer-Allowed :
    (o : Option ℕ) (reader : Bytes) (events : List Event) (more : Result Input)
    → Allowed Any more
    → Allowed Any (cut_trailer o reader events more)
unfolding cut_trailer Allowed
cut_trailer-Allowed none reader events more h = h
cut_trailer-Allowed (some p) reader events more h = tt

pub skip_line-Allowed :
    (reader : Bytes) (events : List Event) → Allowed Any (skip_line reader events)
unfolding skip_line Allowed
skip_line-Allowed reader [] =
    cut_trailer-Allowed (memchr b'\n' reader) reader []
      (ok (record { reader = reader; incoming = [] })) tt
skip_line-Allowed reader (silent ∷ events) =
    cut_trailer-Allowed _ reader (silent ∷ events) _ (skip_line-Allowed reader events)
skip_line-Allowed reader (failed ∷ events) =
    cut_trailer-Allowed _ reader (failed ∷ events) (err io) (λ k. cc)
skip_line-Allowed reader (received [] ∷ events) =
    cut_trailer-Allowed (memchr b'\n' reader) reader (received [] ∷ events)
      (ok (record { reader = reader; incoming = events })) tt
skip_line-Allowed reader (received (b ∷ s) ∷ events) =
    cut_trailer-Allowed _ reader (received (b ∷ s) ∷ events) _
      (skip_line-Allowed (reader ++ b ∷ s) events)

abbrev pub Exact : ℕ → ℕ → Bytes × Input → Type 0
Exact n total (s, d) = (left d + n ≤ total) × (length s ≡ n)

pub fill-whole :
    (n : ℕ) (c : Input) → Allowed (Filled n (length (whole c))) (fill n c.reader c.incoming)
unfolding whole
fill-whole n c = fill-Allowed n c.reader c.incoming

pub split-Exact :
    (n : ℕ) (c d : Input) → left d ≤ left c → n ≤ length d.reader → Exact n (left c) (split_to n d)
unfolding left
split-Exact n c d short enough =
    let rest = drop n d.reader in
    let arr = arriving d.incoming in
    omega (
      arith,
      length-append d.reader arr,
      length-append rest arr,
      length-drop n d.reader,
      length-take n d.reader,
    )

pub take_exact-Allowed : (n : ℕ) (c : Input) → Allowed (Exact n (left c)) (take_exact n c)
unfolding take_exact left Allowed
take_exact-Allowed n c =
    Allowed-bind (Filled n (length (whole c))) (Exact n (left c)) (fill n c.reader c.incoming) _
      (fill-whole n c) (λ d (short, enough). split-Exact n c d short enough)

pub line_whole : (c : Input) → Allowed (Cut (left c)) (read_line c.reader c.incoming)
unfolding left
line_whole c = read_line-Allowed c.reader c.incoming

pub number-Allowed : (o : Option ℕ) → Allowed (λ _. Unit {0}) (number_or_err o)
unfolding Allowed
number-Allowed none = λ k. cc
number-Allowed (some n) = tt

pub size-Allowed : (l : Bytes) → Allowed (λ _. Unit {0}) (chunk_size_of l)
unfolding chunk_size_of Allowed
size-Allowed l = Allowed-if _ (is_utf8 l) _ _ (λ e. number-Allowed _) (λ e k. cc)

pub expect_crlf-Allowed : (c : Input) → Allowed (λ d. left d ≤ left c) (expect_crlf c)
unfolding expect_crlf Allowed
expect_crlf-Allowed c =
    Allowed-bind (Exact 2 (left c)) (λ d. left d ≤ left c) (take_exact 2 c) _
      (take_exact-Allowed 2 c)
      (λ (s, d) (short, size).
        Allowed-if (λ d. left d ≤ left c) (bytes_eq s (codes "\r\n")) (ok d) (err missing_crlf)
          (λ e. omega arith) (λ e k. cc))
