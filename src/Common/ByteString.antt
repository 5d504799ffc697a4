-- ===== src/Common/ByteString.antt =====
-- Byte strings: what the source uses of `[u8]`, of `str` as its UTF-8 bytes, and of `memchr`.
use Prim.Native.Nat.{◌<◌, ◌≤◌, ℕ, suc, ◌+◌, ◌-◌}
use Prim.Native.Char.{code}
use Prim.Native.String.{String}
use mathlib.Core.Path.{◌≡◌, refl, ap}
use mathlib.Core.Logic.{◌↔◌, ◌≢◌, inl, inr}
use mathlib.Core.Bool.{Bool, true, false, ◌&&◌, ◌||◌}
use mathlib.Core.Option
use mathlib.Core.Option.{Option, none, some}
use mathlib.Core.List.{◌++◌, List, [], ◌∷◌, map}
use native.Mathlib.Omega.{arith}
use mhttp.Common.Tests.{Bool-cases, Option-cases, leb, ◌==◌, if◌then◌else◌}
use mhttp.Common.Lists.{All, length, take, drop}

abbrev pub Bytes : Type 0
Bytes = List ℕ

-- The bytes of an ASCII literal.
abbrev pub codes : String → Bytes
codes String.[] = []
codes (String.◌∷◌ c s) = code c ∷ codes s

-- `u8::to_ascii_lowercase`
unfoldable pub to_ascii_lowercase : ℕ → ℕ
to_ascii_lowercase c = if leb b'A' c && leb c b'Z' then c + 32 else c

abbrev pub make_ascii_lowercase : Bytes → Bytes
make_ascii_lowercase = map to_ascii_lowercase

-- `==` on byte slices
unfoldable pub bytes_eq : Bytes → Bytes → Bool
bytes_eq [] [] = true
bytes_eq [] (_ ∷ _) = false
bytes_eq (_ ∷ _) [] = false
bytes_eq (a ∷ s) (b ∷ t) = (a == b) && bytes_eq s t

-- `[u8]::eq_ignore_ascii_case`
unfoldable pub eq_ignore_ascii_case : Bytes → Bytes → Bool
unfolding bytes_eq to_ascii_lowercase
eq_ignore_ascii_case s t = bytes_eq (make_ascii_lowercase s) (make_ascii_lowercase t)

-- `memchr::memchr`: the position of the first such byte
unfoldable pub memchr : ℕ → Bytes → Option ℕ
memchr c [] = none
memchr c (b ∷ s) = if b == c then some 0 else Option.map (λ n. n + 1) (memchr c s)

-- `starts_with`
unfoldable pub starts_with : Bytes → Bytes → Bool
starts_with s [] = true
starts_with [] (_ ∷ _) = false
starts_with (a ∷ s) (b ∷ t) = (a == b) && starts_with s t

-- `while !s.is_empty() && p(s[0]) { s = &s[1..]; }`
unfoldable pub trim_start_by : (ℕ → Bool) → Bytes → Bytes
trim_start_by p [] = []
trim_start_by p (c ∷ s) = if p c then trim_start_by p s else c ∷ s

-- The first byte is put in front of a trimmed rest, unless nothing is left and it goes too.
abbrev keep_unless : Bool → ℕ → Bytes → Bytes
keep_unless gone c [] = if gone then [] else c ∷ []
keep_unless gone c (b ∷ s) = c ∷ b ∷ s

-- `while !s.is_empty() && p(s[s.len() - 1]) { s = &s[..s.len() - 1]; }`
unfoldable pub trim_end_by : (ℕ → Bool) → Bytes → Bytes
trim_end_by p [] = []
trim_end_by p (c ∷ s) = keep_unless (p c) c (trim_end_by p s)

-- `s.len() >= t.len() && &s[s.len() - t.len()..] == t`
unfoldable pub ends_with : Bytes → Bytes → Bool
unfolding bytes_eq
ends_with s t = leb (length t) (length s) && bytes_eq (drop (length s - length t) s) t

-- A byte in front of the first part.
abbrev pub cons_head : ℕ → List Bytes → List Bytes
cons_head c [] = (c ∷ []) ∷ []
cons_head c (l ∷ ls) = (c ∷ l) ∷ ls

-- `str::split` at an ASCII character
unfoldable pub split : ℕ → Bytes → List Bytes
split c [] = [] ∷ []
split c (b ∷ s) = let rest = split c s in if b == c then [] ∷ rest else cons_head b rest

-- The parts that are not empty.
unfoldable pub filter_non_empty : List Bytes → List Bytes
filter_non_empty [] = []
filter_non_empty ([] ∷ ps) = filter_non_empty ps
filter_non_empty ((c ∷ p) ∷ ps) = (c ∷ p) ∷ filter_non_empty ps

abbrev pub is_empty {ℓ} : {A : Type ℓ} → List A → Bool
is_empty [] = true
is_empty (_ ∷ _) = false

abbrev pub Lacks : ℕ → Bytes → Type 0
Lacks c = All (λ b. b ≢ c)

pub bytes_eq_refl : (s : Bytes) → bytes_eq s s ≡ true
unfolding bytes_eq
bytes_eq_refl [] = refl
bytes_eq_refl (a ∷ s) = ground (arith, bytes_eq_refl s)

pub bytes_eq_sound : (s t : Bytes) → bytes_eq s t ≡ true → s ≡ t
unfolding bytes_eq
bytes_eq_sound [] [] h = refl
bytes_eq_sound [] (_ ∷ _) h = absurd (cc)
bytes_eq_sound (_ ∷ _) [] h = absurd (cc)
bytes_eq_sound (a ∷ s) (b ∷ t) h = ground (arith, bytes_eq_sound s t)

pub bytes_eq_iff : (s t : Bytes) → (bytes_eq s t ≡ true) ↔ (s ≡ t)
bytes_eq_iff s t = (bytes_eq_sound s t, λ e. rw e (bytes_eq_refl t))

pub lowercase_idem : (c : ℕ) → to_ascii_lowercase (to_ascii_lowercase c) ≡ to_ascii_lowercase c
unfolding to_ascii_lowercase
lowercase_idem c = ground arith

pub make_lowercase_idem :
    (s : Bytes) → make_ascii_lowercase (make_ascii_lowercase s) ≡ make_ascii_lowercase s
make_lowercase_idem [] = refl
make_lowercase_idem (c ∷ s) = rw (lowercase_idem c, make_lowercase_idem s)

-- Behind a text that lacks the character, it is found at the end of the text.
pub memchr_first : (c : ℕ) (s t : Bytes) → Lacks c s → memchr c (s ++ c ∷ t) ≡ some (length s)
unfolding memchr
memchr_first c [] t h = ground arith
memchr_first c (b ∷ s) t (p, h) = ground (arith, memchr_first c s t h)

pub memchr_lt : (c : ℕ) (s : Bytes) (n : ℕ) → memchr c s ≡ some n → n < length s
unfolding memchr
memchr_lt c [] n h = cc
memchr_lt c (b ∷ s) n h = ground (arith, Option-cases (memchr c s), memchr_lt c s (n - 1))

-- A character that is found in a text is found there in a longer text.
pub memchr-append : (c : ℕ) (s t : Bytes) (p : ℕ) → memchr c s ≡ some p → memchr c (s ++ t) ≡ some p
unfolding memchr
memchr-append c [] t p e = absurd (cc)
memchr-append c (b ∷ s) t p e =
    ground (arith, Option-cases (memchr c s), memchr-append c s t (p - 1))

-- `str::contains`
unfoldable pub contains : Bytes → Bytes → Bool
unfolding starts_with
contains [] pattern = is_empty pattern
contains (c ∷ s) pattern = starts_with (c ∷ s) pattern || contains s pattern

-- `memmem::find`: the first place where a pattern stands
unfoldable pub memmem : Bytes → Bytes → Option ℕ
unfolding starts_with
memmem [] pattern = if is_empty pattern then some 0 else none
memmem (c ∷ s) pattern =
    let rest = memmem s pattern in
    if starts_with (c ∷ s) pattern
    then some 0
    else elim rest [ none ↦ none | some p ↦ some (p + 1) ]

pub starts_with_le : (s pattern : Bytes) → starts_with s pattern ≡ true → length pattern ≤ length s
unfolding starts_with
starts_with_le s [] h = omega arith
starts_with_le [] (d ∷ p) h = absurd (cc)
starts_with_le (c ∷ s) (d ∷ p) h = ground (arith, starts_with_le s p)

-- Bytes behind a text that is as long as the pattern do not matter.
pub starts_with-append :
    (s t pattern : Bytes)
    → length pattern ≤ length s
    → starts_with (s ++ t) pattern ≡ starts_with s pattern
unfolding starts_with
starts_with-append s t [] h = refl
starts_with-append [] t (d ∷ p) h = absurd (omega arith)
starts_with-append (c ∷ s) t (d ∷ p) h = rw (starts_with-append s t p (omega arith))

pub memmem_le :
    (s pattern : Bytes) (p : ℕ) → memmem s pattern ≡ some p → p + length pattern ≤ length s
unfolding memmem
memmem_le [] [] p h = ground arith
memmem_le [] (d ∷ pattern) p h = absurd (cc)
memmem_le (c ∷ s) pattern p h = ground (
  arith,
  Option-cases (memmem s pattern),
  memmem_le s pattern (p - 1),
  starts_with_le (c ∷ s) pattern,
)

-- A pattern that is found in a text is found there in a longer text.
pub memmem-append :
    (s t pattern : Bytes) (p : ℕ) → memmem s pattern ≡ some p → memmem (s ++ t) pattern ≡ some p
unfolding memmem
memmem-append [] [] [] p found = found
memmem-append [] (c ∷ t) [] p found = unfold starts_with in found
memmem-append [] t (d ∷ pattern) p found = absurd (cc)
memmem-append (c ∷ s) t pattern p found =
    let fits = memmem_le (c ∷ s) pattern p found in
    let same = starts_with-append (c ∷ s) t pattern (omega arith) in
    rw same
      (ground (arith, found, Option-cases (memmem s pattern), memmem-append s t pattern (p - 1)))

-- A character that is found cuts the text where it stands first.
abbrev pub CutAt : ℕ → Bytes → ℕ → Type 0
CutAt c s i =
    (a : Bytes) × (t : Bytes) × (s ≡ a ++ c ∷ t) × Lacks c a × (take i s ≡ a) × (drop (i + 1) s ≡ t)

pub memchr-CutAt : (c : ℕ) (s : Bytes) (i : ℕ) → memchr c s ≡ some i → CutAt c s i
unfolding memchr
memchr-CutAt c [] i h = absurd (cc)
memchr-CutAt c (b ∷ s) i h = elim (Bool-cases (b == c)) [
  | inl e ↦
      let first : i ≡ 0 = ground arith in
      let same : b ≡ c = ground arith in rw first ([], s, ap (λ d. d ∷ s) same, tt, refl, refl)
  | inr e ↦ elim (Option-cases (memchr c s)) [
    | inl gone ↦ absurd (ground arith)
    | inr (j, found) ↦
        let (a, t, text, lacks, front, back) = memchr-CutAt c s j found in
        let later : i ≡ suc j = ground arith in
        let more : suc j + 1 ≡ suc (j + 1) = omega arith in
        let other : b ≢ c = λ f. ground arith in
        rw (later, more) (b ∷ a, t, ap (◌∷◌ b) text, (other, lacks), ap (◌∷◌ b) front, back)
  ]
]

-- A text is one part where the character is not in it, and is cut where it stands first.
pub Lacks-split : (c : ℕ) (s : Bytes) → Lacks c s → split c s ≡ s ∷ []
unfolding split
Lacks-split c [] h = refl
Lacks-split c (b ∷ s) (h, hs) =
    let other : (b == c) ≡ false = ground arith in rw (other, Lacks-split c s hs) refl

pub split_first : (c : ℕ) (s t : Bytes) → Lacks c s → split c (s ++ c ∷ t) ≡ s ∷ split c t
unfolding split
split_first c [] t h = let same : (c == c) ≡ true = ground arith in rw same refl
split_first c (b ∷ s) t (h, hs) =
    let other : (b == c) ≡ false = ground arith in rw (other, split_first c s t hs) refl
