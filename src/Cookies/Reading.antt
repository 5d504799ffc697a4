-- ===== src/Cookies/Reading.antt =====
-- `impl From<&[u8]> for CookieStore` (src/cookie_store.rs) against a description by parts: the header
-- is cut at its semicolons, and of the parts that are cookies the last one with a name counts.
use mhttp.Common.{
  ℕ, zero, suc, ◌+◌, ◌≤◌, ◌≡◌, refl, sym, ap, ◌∙◌, ◌&&◌, ◌||◌, Option, none, some, List, [], ◌∷◌,
  Bytes, if◌then◌else◌, ◌==◌, length, take, drop, memchr, is_empty, split, bytes_eq, arith,
  Option-cases, Bool-cases, inl, inr, length-drop,
}
use mhttp.Common.Utf8.{is_utf8}
use mhttp.Common.HashMap.{lookup-insert}
use mhttp.Cookies.{
  CookieStore, Cookie, trim_ascii, split_pair, set_pair, or_else, read_pairs, from, get,
}

-- A text is cut where the character stands first.
split-memchr :
    (c : ℕ) (s : Bytes) (p : ℕ)
    → memchr c s ≡ some p
    → split c s ≡ take p s ∷ split c (drop (p + 1) s)
unfolding memchr split
split-memchr c [] p e = absurd (cc)
split-memchr c (b ∷ s) p e = elim (Bool-cases (b == c)) [
  | inl here ↦ let first : p ≡ 0 = ground arith in rw (here, first) refl
  | inr later ↦ elim (Option-cases (memchr c s)) [
    | inl lost ↦ absurd (ground arith)
    | inr (q, found) ↦
        let next : p ≡ suc q = ground arith in
        let shift : suc q + 1 ≡ suc (q + 1) = omega arith in
        rw (later, split-memchr c s q found, next, shift) refl
  ]
]

split_whole : (c : ℕ) (s : Bytes) → memchr c s ≡ none → split c s ≡ s ∷ []
unfolding memchr split
split_whole c [] e = refl
split_whole c (b ∷ s) e = elim (Bool-cases (b == c)) [
  | inl here ↦ absurd (ground arith)
  | inr later ↦ elim (Option-cases (memchr c s)) [
    | inl lost ↦ rw (later, split_whole c s lost) refl
    | inr (q, found) ↦ absurd (ground arith)
  ]
]

-- What a part of the header says, if it is a cookie.
unfoldable pub cookie_of : Bytes → Option (Bytes × Bytes)
unfolding trim_ascii split_pair is_utf8
cookie_of part =
    let (name, value) = split_pair (trim_ascii part) in
    if is_empty (trim_ascii part) || is_empty name
    then none
    else if is_utf8 name && is_utf8 value
    then some (name, value)
    else none

abbrev named : Bytes → Option (Bytes × Bytes) → Option Bytes
named key none = none
named key (some (name, value)) = if bytes_eq name key then some value else none

abbrev prefer : Option Bytes → Option Bytes → Option Bytes
prefer (some v) old = some v
prefer none old = old

unfoldable pub last_value : Bytes → List Bytes → Option Bytes
unfolding cookie_of bytes_eq
last_value key [] = none
last_value key (part ∷ parts) = prefer (last_value key parts) (named key (cookie_of part))

end : (o : Option Bytes) → prefer o none ≡ o
end none = refl
end (some v) = refl

-- The loop of `from` sets the parts in turn.
set_parts : List Bytes → CookieStore → CookieStore
set_parts [] m = m
set_parts (part ∷ parts) m = set_parts parts (set_pair (trim_ascii part) m)

drop_all : (s : Bytes) (n : ℕ) → length s ≤ n → drop n s ≡ []
drop_all [] zero h = refl
drop_all [] (suc n) h = refl
drop_all (c ∷ s) zero h = absurd (omega arith)
drop_all (c ∷ s) (suc n) h = drop_all s n (omega arith)

take_all : (s : Bytes) → take (length s) s ≡ s
take_all [] = refl
take_all (c ∷ s) = ap (◌∷◌ c) (take_all s)

read_nothing : (fuel : ℕ) (m : CookieStore) → read_pairs fuel [] m ≡ m
unfolding read_pairs
read_nothing zero m = refl
read_nothing (suc fuel) m = refl

set_nothing : (m : CookieStore) → set_pair (trim_ascii []) m ≡ m
unfolding set_pair trim_ascii split_pair
set_nothing m = refl

-- One turn of the loop, where the end of the pair is known.
turn : ℕ → ℕ → Bytes → CookieStore → Option ℕ → CookieStore
turn fuel c s m o =
    let pair_end = or_else (length (c ∷ s)) o in
    read_pairs fuel (drop (pair_end + 1) (c ∷ s)) (set_pair (trim_ascii (take pair_end (c ∷ s))) m)

read_pairs-turn :
    (fuel c : ℕ) (s : Bytes) (m : CookieStore)
    → read_pairs (suc fuel) (c ∷ s) m ≡ turn fuel c s m (memchr b';' (c ∷ s))
unfolding read_pairs turn
read_pairs-turn fuel c s m = refl

split_nothing : split b';' [] ≡ [] ∷ []
unfolding split
split_nothing = refl

read_pairs-set_parts :
    (fuel : ℕ) (s : Bytes) (m : CookieStore)
    → length s ≤ fuel
    → read_pairs fuel s m ≡ set_parts (split b';' s) m
unfolding set_parts turn
read_pairs-set_parts fuel [] m h = rw (read_nothing fuel m, split_nothing) (sym (set_nothing m))
read_pairs-set_parts zero (c ∷ s) m h = absurd (omega arith)
read_pairs-set_parts (suc fuel) (c ∷ s) m h = elim (Option-cases (memchr b';' (c ∷ s))) [
  | inl lost ↦
      let rest = drop_all (c ∷ s) (length (c ∷ s) + 1) (omega arith) in
      let all = take_all (c ∷ s) in
      let one = split_whole b';' (c ∷ s) lost in
      rw (read_pairs-turn fuel c s m, lost, one, rest, all) (read_nothing fuel _)
  | inr (p, found) ↦
      let shorter = length-drop (p + 1) (c ∷ s) in
      let cut = split-memchr b';' (c ∷ s) p found in
      rw (read_pairs-turn fuel c s m, found, cut)
        (read_pairs-set_parts fuel (drop (p + 1) (c ∷ s)) _ (omega arith))
]

-- A part sets what it says, and nothing else.
get-set_pair :
    (part key : Bytes) (m : CookieStore)
    → get (set_pair (trim_ascii part) m) key ≡ prefer (named key (cookie_of part)) (get m key)
unfolding get set_pair cookie_of
get-set_pair part key m =
    let (name, value) = split_pair (trim_ascii part) in
    let cookie : Cookie = record { value = value; options = none } in
    ground (arith, lookup-insert name key cookie m)

get-set_parts :
    (parts : List Bytes) (key : Bytes) (m : CookieStore)
    → get (set_parts parts m) key ≡ prefer (last_value key parts) (get m key)
unfolding set_parts last_value
get-set_parts [] key m = refl
get-set_parts (part ∷ parts) key m =
    ground (arith, get-set_parts parts key (set_pair (trim_ascii part) m), get-set_pair part key m)

-- A cookie that is looked up in a header is the value of the last part, between semicolons, that is a
-- cookie with that name; a part without a name, or with bytes that are no text, counts for nothing.
pub get-from : (bytes key : Bytes) → get (from bytes) key ≡ last_value key (split b';' bytes)
unfolding from get
get-from bytes key =
    rw (read_pairs-set_parts (length bytes) bytes [] (omega arith))
      (get-set_parts (split b';' bytes) key [] ∙ end (last_value key (split b';' bytes)))
