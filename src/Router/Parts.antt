-- ===== src/Router/Parts.antt =====
-- `next_segment` of src/router.rs walks the same parts that `parse_segments` splits a pattern into.
use mhttp.Common.{
  ℕ, suc, ◌⊎◌, ◌≡◌, refl, sym, ap, ◌∙◌, zero, Bool, false, Option, none, some, List, [], ◌∷◌, arith,
  Bytes, inl, inr, ◌==◌, Bool-cases, Option-cases, split, filter_non_empty, trim_start_by, memchr,
  take, drop,
}
use mhttp.Router.{next_segment, segment_of, is_slash}

-- The parts of a path between its slashes, those that are empty left out.
unfoldable pub parts : Bytes → List Bytes
unfolding split filter_non_empty
parts path = filter_non_empty (split b'/' path)

abbrev pub of_next : Option (Bytes × Bytes) → List Bytes
of_next none = []
of_next (some (seg, rest)) = seg ∷ parts rest

parts-trim : (s : Bytes) → parts (trim_start_by is_slash s) ≡ parts s
unfolding parts trim_start_by
parts-trim [] = refl
parts-trim (c ∷ s) = ground (arith, parts-trim s)

module _ (c : ℕ) where
  split-none : (s : Bytes) → memchr c s ≡ none → split c s ≡ s ∷ []
  unfolding split memchr
  split-none [] h = refl
  split-none (b ∷ s) h = ground (arith, split-none s, Option-cases (memchr c s))

  -- The first part ends in front of the first separator.
  split-some :
      (s : Bytes) (i : ℕ)
      → memchr c s ≡ some i
      → (split c s ≡ take i s ∷ split c (drop (suc i) s)) × (drop i s ≡ c ∷ drop (suc i) s)
  unfolding split memchr
  split-some [] i h = cc
  split-some (b ∷ s) zero h = elim (Bool-cases (b == c)) [
    | inl same ↦ rw same (refl, ground arith)
    | inr other ↦ absurd (ground (arith, Option-cases (memchr c s)))
  ]
  split-some (b ∷ s) (suc i) h = elim (Bool-cases (b == c)) [
    | inl same ↦ absurd (ground arith)
    | inr other ↦
        let (cut, rest) = split-some s i (ground (arith, Option-cases (memchr c s))) in
        (rw (other, cut), rest)
  ]

-- What is trimmed begins with no slash.
trim_start_by-head :
    (p : ℕ → Bool) (s : Bytes)
    → (trim_start_by p s ≡ [])
      ⊎ ((c : ℕ) × (u : Bytes) × (trim_start_by p s ≡ c ∷ u) × (p c ≡ false))
unfolding trim_start_by
trim_start_by-head p [] = inl refl
trim_start_by-head p (c ∷ s) = elim (Bool-cases (p c)) [
  | inl blank ↦ rw blank (trim_start_by-head p s)
  | inr plain ↦ rw plain (inr (c, s, refl, plain))
]

parts_slash : (s : Bytes) → parts (b'/' ∷ s) ≡ filter_non_empty (split b'/' s)
unfolding parts
parts_slash s = refl

-- The part in front of the separator at `i`, and what stands behind it.
parts_cut :
    (c : ℕ) (u : Bytes) (i : ℕ)
    → (c == b'/') ≡ false
    → memchr b'/' (c ∷ u) ≡ some i
    → parts (c ∷ u) ≡ take i (c ∷ u) ∷ parts (drop i (c ∷ u))
unfolding parts
parts_cut c u zero plain h = let (_, rest) = split-some b'/' (c ∷ u) zero h in absurd (ground arith)
parts_cut c u (suc i) plain h =
    let (cut, rest) = split-some b'/' (c ∷ u) (suc i) h in rw (cut, rest) (unfold parts in refl)

parts_plain :
    (c : ℕ) (u : Bytes) → (c == b'/') ≡ false → parts (c ∷ u) ≡ of_next (segment_of (c ∷ u))
parts_plain c u plain = elim (Option-cases (memchr b'/' (c ∷ u))) [
  | inl e ↦ rw e (unfold parts in rw (split-none b'/' (c ∷ u) e))
  | inr (i, e) ↦ rw e (parts_cut c u i plain e)
]

-- One segment and the parts of what follows it are the parts of the path; where there is no segment
-- the path has no part.
pub parts-next_segment : (path : Bytes) → parts path ≡ of_next (next_segment path)
unfolding next_segment parts
parts-next_segment path = sym (parts-trim path) ∙ elim (trim_start_by-head is_slash path) [
  | inl e ↦ ap parts e ∙ ap (λ t. of_next (segment_of t)) (sym e)
  | inr (c, u, e, plain) ↦
      ap parts e ∙ (parts_plain c u plain ∙ ap (λ t. of_next (segment_of t)) (sym e))
]
