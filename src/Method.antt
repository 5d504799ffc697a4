-- ===== src/Method.antt =====
-- `HttpMethod` of src/request.rs: parsing, printing and comparison.
use mhttp.Common.{
  ℕ, ◌≡◌, refl, sym, ap, ◌∙◌, ◌↔◌, Bool, true, false, Option, none, some, List, [], ◌∷◌, arith,
  Bytes, codes, ◌==◌, ==_iff, if◌then◌else◌, bytes_eq, bytes_eq_iff, make_ascii_lowercase,
  eq_ignore_ascii_case, to_ascii_lowercase, Bool-cases, inl, inr,
}
use mhttp.FieldLines.Fields.{eq_ignore_iff}
mod Tests

pub data HttpMethod : Type 0 where
  get post patch put delete options head connect trace : HttpMethod

-- The discriminant, which the derived `PartialEq` compares.
abbrev tag : HttpMethod → ℕ
tag get = 0
tag post = 1
tag patch = 2
tag put = 3
tag delete = 4
tag options = 5
tag head = 6
tag connect = 7
tag trace = 8

unfoldable pub method_eq : HttpMethod → HttpMethod → Bool
method_eq a b = tag a == tag b

-- `impl Display`
unfoldable pub to_string : HttpMethod → Bytes
to_string get = codes "GET"
to_string post = codes "POST"
to_string patch = codes "PATCH"
to_string put = codes "PUT"
to_string delete = codes "DELETE"
to_string options = codes "OPTIONS"
to_string head = codes "HEAD"
to_string connect = codes "CONNECT"
to_string trace = codes "TRACE"

-- The names are ASCII, and no other character has one of their letters as its lower case, so the
-- ASCII part of `str::to_lowercase` decides; `none` is `InvalidHttpMethod`.
unfoldable pub from_str : Bytes → Option HttpMethod
unfolding to_ascii_lowercase bytes_eq
from_str s =
    let l = make_ascii_lowercase s in
    if bytes_eq l (codes "get")
    then some get
    else if bytes_eq l (codes "post")
    then some post
    else if bytes_eq l (codes "patch")
    then some patch
    else if bytes_eq l (codes "put")
    then some put
    else if bytes_eq l (codes "delete")
    then some delete
    else if bytes_eq l (codes "options")
    then some options
    else if bytes_eq l (codes "head")
    then some head
    else if bytes_eq l (codes "connect")
    then some connect
    else if bytes_eq l (codes "trace")
    then some trace
    else none

abbrev of_tag : ℕ → HttpMethod
of_tag n =
    if n == 0
    then get
    else if n == 1
    then post
    else if n == 2
    then patch
    else if n == 3
    then put
    else if n == 4
    then delete
    else if n == 5
    then options
    else if n == 6
    then head
    else if n == 7
    then connect
    else trace

of_tag-tag : (m : HttpMethod) → of_tag (tag m) ≡ m
of_tag-tag get = refl
of_tag-tag _ = refl

pub method_eq_iff : (a b : HttpMethod) → (method_eq a b ≡ true) ↔ (a ≡ b)
unfolding method_eq
method_eq_iff a b = (
  λ h. sym (of_tag-tag a) ∙ (ap of_tag ((==_iff (tag a) (tag b)).0 h) ∙ of_tag-tag b),
  λ e. (==_iff (tag a) (tag b)).1 (ap tag e),
)

from_str-to_string : (m : HttpMethod) → from_str (to_string m) ≡ some m
unfolding from_str to_string
from_str-to_string get = refl
from_str-to_string _ = refl

from_str_sound :
    (s : Bytes) (m : HttpMethod) → from_str s ≡ some m → eq_ignore_ascii_case s (to_string m) ≡ true
unfolding from_str to_string eq_ignore_ascii_case
from_str_sound s m h = ground arith

from_str-lowercase :
    (s t : Bytes) → make_ascii_lowercase s ≡ make_ascii_lowercase t → from_str s ≡ from_str t
unfolding from_str
from_str-lowercase s t e = rw e

-- A text is read as a method exactly when it is the method's name in some case of letters.
pub from_str_iff :
    (s : Bytes) (m : HttpMethod)
    → (from_str s ≡ some m) ↔ (eq_ignore_ascii_case s (to_string m) ≡ true)
from_str_iff s m = (
  from_str_sound s m,
  λ h.
      from_str-lowercase s (to_string m) ((eq_ignore_iff s (to_string m)).0 h)
      ∙ from_str-to_string m,
)
