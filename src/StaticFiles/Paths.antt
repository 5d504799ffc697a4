-- ===== src/StaticFiles/Paths.antt =====
-- What src/static_files.rs uses of `std::path::Path` on Unix: `join`, `starts_with`, `extension`. A path
-- is its bytes. The root is a component of its own, `/`, which no name is.
use mhttp.Common.{
  Bool, true, false, ◌&&◌, ◌||◌, Option, none, some, List, [], ◌∷◌, ◌++◌, ◌≡◌, refl, ap, ◌∙◌, Bytes,
  codes, is_empty, starts_with, ends_with, bytes_eq, bytes_eq_sound, bytes_eq_refl, split,
  if◌then◌else◌, arith,
}
use mhttp.Common.Utf8.{is_utf8}

-- `Path::join`: an absolute path takes the place of the first.
unfoldable pub join : Bytes → Bytes → Bytes
unfolding starts_with ends_with
join base path =
    if starts_with path (codes "/")
    then path
    else if is_empty base || ends_with base (codes "/")
    then base ++ path
    else base ++ (codes "/" ++ path)

-- Repeated separators, one at the end, and `.` behind the first component do not count.
unfoldable pub names : List Bytes → List Bytes
unfolding bytes_eq
names [] = []
names (name ∷ parts) =
    let rest = names parts in
    if is_empty name || bytes_eq name (codes ".") then rest else name ∷ rest

abbrev first_name : List Bytes → List Bytes
first_name [] = []
first_name (name ∷ parts) =
    if bytes_eq name (codes ".") then name ∷ names parts else names (name ∷ parts)

unfoldable pub components : Bytes → List Bytes
unfolding starts_with split names bytes_eq
components path =
    if starts_with path (codes "/")
    then codes "/" ∷ names (split b'/' path)
    else first_name (split b'/' path)

unfoldable pub is_prefix : List Bytes → List Bytes → Bool
unfolding bytes_eq
is_prefix [] path = true
is_prefix (_ ∷ _) [] = false
is_prefix (b ∷ base) (p ∷ path) = bytes_eq p b && is_prefix base path

-- `path.starts_with(base)`
unfoldable pub is_under : Bytes → Bytes → Bool
unfolding components is_prefix
is_under base path = is_prefix (components base) (components path)

unfoldable pub last_of : List Bytes → Option Bytes
last_of [] = none
last_of (p ∷ []) = some p
last_of (p ∷ q ∷ path) = last_of (q ∷ path)

-- The text behind the last dot of a name, if a text stands in front of the dot
unfoldable pub behind_dot : List Bytes → Option Bytes
behind_dot [] = none
behind_dot (front ∷ []) = none
behind_dot (front ∷ part ∷ parts) =
    if is_empty front && is_empty parts then none else last_of (part ∷ parts)

abbrev extension_of : Option Bytes → Option Bytes
extension_of none = none
extension_of (some name) =
    if bytes_eq name (codes "..") || bytes_eq name (codes "/") || bytes_eq name (codes ".")
    then none
    else behind_dot (split b'.' name)

-- `path.extension().and_then(|e| e.to_str())`
unfoldable pub extension : Bytes → Option Bytes
unfolding components last_of split behind_dot is_utf8 bytes_eq
extension path = elim (extension_of (last_of (components path))) [
  | none ↦ none
  | some e ↦ if is_utf8 e then some e else none
]

-- A path lies under a base: its components begin with those of the base.
abbrev pub Under : Bytes → Bytes → Type 0
Under base path = (rest : List Bytes) × (components path ≡ components base ++ rest)

is_prefix-append :
    (base path : List Bytes)
    → is_prefix base path ≡ true
    → (rest : List Bytes) × (path ≡ base ++ rest)
unfolding is_prefix
is_prefix-append [] path h = (path, refl)
is_prefix-append (b ∷ base) [] h = absurd (cc)
is_prefix-append (b ∷ base) (p ∷ path) h =
    let (rest, e) = is_prefix-append base path (ground arith) in
    let same = bytes_eq_sound p b (ground arith) in (rest, ap (λ c. c ∷ path) same ∙ ap (◌∷◌ b) e)

pub is_under-Under : (base path : Bytes) → is_under base path ≡ true → Under base path
unfolding is_under
is_under-Under base path h = is_prefix-append (components base) (components path) h

append-is_prefix : (base rest : List Bytes) → is_prefix base (base ++ rest) ≡ true
unfolding is_prefix
append-is_prefix [] rest = refl
append-is_prefix (b ∷ base) rest = rw (bytes_eq_refl b, append-is_prefix base rest) refl

pub Under-is_under : (base path : Bytes) → Under base path → is_under base path ≡ true
unfolding is_under
Under-is_under base path (rest, e) = rw e (append-is_prefix (components base) rest)
