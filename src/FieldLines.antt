-- ===== src/FieldLines.antt =====
-- src/field_lines.rs: header fields in one byte arena, with (start, length) pairs of u32 indices.
-- A slice or an index out of bounds panics: such a result is `none`. Casts to u32 wrap, and so does
-- addition of u32 (a release build).
pub mod Fields
pub mod Index
pub mod Slices
pub mod Entries
pub mod Refine
pub mod Parse
pub mod Lines
pub mod Block
pub mod RoundTrip
mod Tests
use mhttp.Common.{
  ℕ, zero, suc, ◌+◌, ◌-◌, ◌%◌, ◌^◌, ◌≡◌, refl, Bool, true, false, ◌&&◌, ◌||◌, not, Option, none,
  some, List, [], ◌∷◌, ◌++◌, map, Bytes, codes, leb, ltb, ◌==◌, if◌then◌else◌, ◌>>=◌, length, take,
  drop, get_elem?, is_empty, make_ascii_lowercase, eq_ignore_ascii_case, bytes_eq, memchr,
}
use mhttp.Common.Utf8.{is_utf8}
use mathlib.Core.Option

abbrev pub u32_mod : ℕ
u32_mod = 2 ^ 32

-- `n as u32`
abbrev pub as_u32 : ℕ → ℕ
as_u32 n = n % u32_mod

abbrev pub add_u32 : ℕ → ℕ → ℕ
add_u32 a b = (a + b) % u32_mod

abbrev pub sub_u32 : ℕ → ℕ → ℕ
sub_u32 a b = (a + u32_mod - b) % u32_mod

pub record Entry : Type 0 where
  pub name_start : ℕ
  pub name_len : ℕ
  pub value_start : ℕ
  pub value_len : ℕ

pub record FieldLines : Type 0 where
  pub arena : Bytes
  pub headers : List Entry

-- `&arena[from..to]`
unfoldable pub slice : Bytes → ℕ → ℕ → Option Bytes
slice s from to =
    if leb from to && leb to (length s) then some (take (to - from) (drop from s)) else none

unfoldable pub name_of : Bytes → Entry → Option Bytes
unfolding slice
name_of arena e = slice arena e.name_start (add_u32 e.name_start e.name_len)

unfoldable pub value_of : Bytes → Entry → Option Bytes
unfolding slice
value_of arena e = slice arena e.value_start (add_u32 e.value_start e.value_len)

unfoldable pub new : FieldLines
new = record { arena = []; headers = [] }

-- `headers.iter().position(|h| name of h equals key, ignoring case)`
unfoldable pub position : Bytes → Bytes → List Entry → Option (Option ℕ)
unfolding name_of eq_ignore_ascii_case
position arena key [] = some none
position arena key (e ∷ es) = do
  name ← name_of arena e
  if eq_ignore_ascii_case name key
      then some (some 0)
      else (position arena key es >>= λ found. some (Option.map (λ n. n + 1) found))

-- `for j in 0..old_vl { arena.push(arena[old_vp + j]) }`, by the rounds left
unfoldable pub copy_loop : ℕ → ℕ → Bytes → Option Bytes
copy_loop zero pos arena = some arena
copy_loop (suc rounds) pos arena = do
  b ← get_elem? arena pos
  copy_loop rounds (pos + 1) (arena ++ b ∷ [])

-- `headers[idx].2 = start; headers[idx].3 = len`
unfoldable pub relocate : ℕ → ℕ → ℕ → List Entry → List Entry
relocate idx start len [] = []
relocate zero start len (e ∷ es) = record e { value_start = start; value_len = len } ∷ es
relocate (suc idx) start len (e ∷ es) = e ∷ relocate idx start len es

unfoldable pub append_value : FieldLines → ℕ → Bytes → Option FieldLines
unfolding copy_loop relocate
append_value fl idx value = do
  e ← get_elem? fl.headers idx
  let new_vp = as_u32 (length fl.arena)
  copied ← copy_loop e.value_len e.value_start fl.arena
  let grown = copied ++ (codes ", " ++ value)
  some (record {
    arena = grown;
    headers = relocate idx new_vp (sub_u32 (as_u32 (length grown)) new_vp) fl.headers;
  })

unfoldable pub push_header : FieldLines → Bytes → Bytes → FieldLines
push_header fl key value =
    let named = fl.arena ++ make_ascii_lowercase key in
    record {
      arena = named ++ value;
      headers =
          fl.headers
          ++ record {
            name_start = as_u32 (length fl.arena);
            name_len = as_u32 (length key);
            value_start = as_u32 (length named);
            value_len = as_u32 (length value);
          }
            ∷ [];
    }

unfoldable pub set : FieldLines → Bytes → Bytes → Option FieldLines
unfolding position append_value push_header
set fl key value = do
  found ← position fl.arena key fl.headers
  elim found [ some idx ↦ append_value fl idx value | none ↦ some (push_header fl key value) ]

get_in : Bytes → Bytes → List Entry → Option (Option Bytes)
unfolding name_of value_of eq_ignore_ascii_case
get_in arena key [] = some none
get_in arena key (e ∷ es) = do
  name ← name_of arena e
  if eq_ignore_ascii_case name key
      then (value_of arena e >>= λ v. some (some v))
      else get_in arena key es

unfoldable pub get : FieldLines → Bytes → Option (Option Bytes)
unfolding get_in
get fl key = get_in fl.arena key fl.headers

-- `Vec::remove`
unfoldable pub remove_at {ℓ} : {A : Type ℓ} → ℕ → List A → List A
remove_at n [] = []
remove_at zero (x ∷ xs) = xs
remove_at (suc n) (x ∷ xs) = x ∷ remove_at n xs

unfoldable pub remove : FieldLines → Bytes → Option (FieldLines × Option Bytes)
unfolding position remove_at value_of is_utf8
remove fl key = do
  found ← position fl.arena key fl.headers
  elim found [
    | none ↦ some (fl, none)
    | some idx ↦ do
      e ← get_elem? fl.headers idx
      value ← value_of fl.arena e
      some (
        record fl { headers = remove_at idx fl.headers },
        if is_utf8 value then some value else none,
      )
  ]

-- `iter`: the pairs of name and value
iter_in : Bytes → List Entry → Option (List (Bytes × Bytes))
unfolding name_of value_of
iter_in arena [] = some []
iter_in arena (e ∷ es) = do
  k ← name_of arena e
  v ← value_of arena e
  rest ← iter_in arena es
  some ((k, v) ∷ rest)

unfoldable pub iter : FieldLines → Option (List (Bytes × Bytes))
unfolding iter_in
iter fl = iter_in fl.arena fl.headers

to_bytes_in : Bytes → List Entry → Bytes → Option Bytes
unfolding name_of value_of
to_bytes_in arena [] buf = some buf
to_bytes_in arena (e ∷ es) buf = do
  k ← name_of arena e
  v ← value_of arena e
  to_bytes_in arena es (buf ++ (k ++ (codes ": " ++ (v ++ codes "\r\n"))))

unfoldable pub to_bytes : FieldLines → Option Bytes
unfolding to_bytes_in
to_bytes fl = to_bytes_in fl.arena fl.headers []
