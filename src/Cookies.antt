-- ===== src/Cookies.antt =====
-- src/cookie_store.rs: the cookies of a request, those that a response sets, and the HTTP date.
-- The clock is not part of the source: `now` is what `SystemTime::now()` gives, in seconds. Products
-- and sums of `u64` wrap around, as they do where overflow is not checked.
pub mod Reading
pub mod Tests
use mhttp.Common.{
  ℕ, zero, suc, ◌+◌, ◌-◌, ◌*◌, ◌/◌, ◌%◌, Bool, true, false, ◌&&◌, ◌||◌, not, Option, none, some,
  List, [], ◌∷◌, ◌++◌, Bytes, codes, ltb, ◌==◌, if◌then◌else◌, length, take, drop, get_elem?,
  memchr, is_empty, trim_start_by, trim_end_by,
}
use mathlib.Core.Option
use mhttp.Common.Utf8.{is_utf8}
use mhttp.Common.Trim.{trim}
use mhttp.Common.HashMap.{lookup, insert}
use mhttp.Common.HashMap
use mhttp.Common.Decimal.{u64_mod, to_decimal}

pub data SameSite : Type 0 where
  strict : SameSite
  lax : SameSite
  cross_site : SameSite

unfoldable pub as_str : SameSite → Bytes
as_str strict = codes "Strict"
as_str lax = codes "Lax"
as_str cross_site = codes "None"

pub data CookieExpiration : Type 0 where
  seconds : ℕ → CookieExpiration
  minutes : ℕ → CookieExpiration
  hours : ℕ → CookieExpiration
  days : ℕ → CookieExpiration
  months : ℕ → CookieExpiration
  years : ℕ → CookieExpiration
  at : ℕ → CookieExpiration

unfoldable pub as_secs_duration : ℕ → CookieExpiration → ℕ
as_secs_duration now (seconds s) = s
as_secs_duration now (minutes m) = m * 60 % u64_mod
as_secs_duration now (hours h) = h * 3600 % u64_mod
as_secs_duration now (days d) = d * 86400 % u64_mod
as_secs_duration now (months m) = m * 2592000 % u64_mod
as_secs_duration now (years y) = y * 31536000 % u64_mod
as_secs_duration now (at ts) = if ltb now ts then ts - now else 0

unfoldable pub timestamp : ℕ → CookieExpiration → ℕ
unfolding as_secs_duration
timestamp now (at ts) = ts
timestamp now e = (now + as_secs_duration now e) % u64_mod

pub record CookieOptions : Type 0 where
  pub domain : Option Bytes
  pub path : Option Bytes
  pub expires : Option CookieExpiration
  pub max_age : Option CookieExpiration
  pub secure : Bool
  pub http_only : Bool
  pub same_site : Option SameSite

pub record Cookie : Type 0 where
  pub value : Bytes
  pub options : Option CookieOptions

abbrev pub CookieStore : Type 0
CookieStore = List (Bytes × Cookie)

abbrev pub new : CookieStore
new = []

unfoldable pub set : CookieStore → Bytes → Bytes → Option CookieOptions → CookieStore
unfolding trim insert
set store key value options = insert (trim key) (record { value = value; options = options }) store

unfoldable pub get : CookieStore → Bytes → Option Bytes
unfolding lookup
get store key = Option.map (λ c. c.value) (lookup key store)

unfoldable pub remove : CookieStore → Bytes → CookieStore × Option Bytes
unfolding lookup HashMap.remove
remove store key = (HashMap.remove key store, Option.map (λ c. c.value) (lookup key store))

-- `format_http_date`. All terms stay below 2^63, and each difference of the source is not negative;
-- in `d` the sum is taken before the difference, since a natural number cannot fall below 0 between.
unfoldable pub era_days : ℕ → ℕ
era_days days_since_epoch = days_since_epoch + 2440588 + 32044

unfoldable pub date_of : ℕ → ℕ × ℕ × ℕ
unfolding era_days
date_of days_since_epoch =
    let j = era_days days_since_epoch in
    let g = j / 146097 in
    let dg = j % 146097 in
    let c = (dg / 36524 + 1) * 3 / 4 in
    let dc = dg - c * 36524 in
    let b = dc / 1461 in
    let db = dc % 1461 in
    let a = (db / 365 + 1) * 3 / 4 in
    let da = db - a * 365 in
    let y = g * 400 + c * 100 + b * 4 + a in
    let m_month = (da * 5 + 308) / 153 - 2 in
    let d = da + 122 - (m_month + 4) * 153 / 5 in
    (y + (m_month + 2) / 12 - 4800, (m_month + 2) % 12 + 1, d + 1)

abbrev or_empty : Option Bytes → Bytes
or_empty none = []
or_empty (some s) = s

abbrev wdays : List Bytes
wdays =
    codes "Thu"
    ∷ codes "Fri"
    ∷ codes "Sat"
    ∷ codes "Sun"
    ∷ codes "Mon"
    ∷ codes "Tue"
    ∷ codes "Wed"
    ∷ []

abbrev month_names : List Bytes
month_names =
    codes "Jan"
    ∷ codes "Feb"
    ∷ codes "Mar"
    ∷ codes "Apr"
    ∷ codes "May"
    ∷ codes "Jun"
    ∷ codes "Jul"
    ∷ codes "Aug"
    ∷ codes "Sep"
    ∷ codes "Oct"
    ∷ codes "Nov"
    ∷ codes "Dec"
    ∷ []

abbrev zeros : ℕ → Bytes
zeros zero = []
zeros (suc n) = b'0' ∷ zeros n

-- `{:02}` and `{:04}`: zeros in front, up to the width
unfoldable pub pad : ℕ → ℕ → Bytes
unfolding to_decimal
pad width n = let s = to_decimal n in zeros (width - length s) ++ s

-- Both indices are in range: the day of the week is below 7, and the month is one of twelve.
unfoldable pub format_http_date : ℕ → Bytes
unfolding date_of pad
format_http_date secs =
    let days_since_epoch = secs / 86400 in
    let time_of_day_secs = secs % 86400 in
    let (year, month, day) = date_of days_since_epoch in
    or_empty (get_elem? wdays (days_since_epoch % 7))
    ++ (codes ", "
        ++ (pad 2 day
            ++ (codes " "
                ++ (or_empty (get_elem? month_names (month - 1))
                    ++ (codes " "
                        ++ (pad 4 year
                            ++ (codes " "
                                ++ (pad 2 (time_of_day_secs / 3600)
                                    ++ (codes ":"
                                        ++ (pad 2 (time_of_day_secs % 3600 / 60)
                                            ++ (codes ":"
                                                ++ (pad 2 (time_of_day_secs % 60)
                                                    ++ codes " GMT"))))))))))))

-- `if let Some(x) = option { buf.put_slice(name); buf.put_slice(text of x); }`
abbrev part {ℓ} : {A : Type ℓ} → Bytes → (A → Bytes) → Option A → Bytes
part name text none = []
part name text (some x) = name ++ text x

abbrev flag : Bytes → Bool → Bytes
flag name b = if b then name else []

unfoldable pub options_to_bytes : ℕ → CookieOptions → Bytes
unfolding format_http_date timestamp as_secs_duration to_decimal as_str
options_to_bytes now options =
    part (codes "; Domain=") (λ d. d) options.domain
    ++ (part (codes "; Path=") (λ p. p) options.path
        ++ (part (codes "; Expires=") (λ e. format_http_date (timestamp now e)) options.expires
            ++ (part (codes "; Max-Age=") (λ m. to_decimal (as_secs_duration now m)) options.max_age
                ++ (flag (codes "; Secure") options.secure
                    ++ (flag (codes "; HttpOnly") options.http_only
                        ++ part (codes "; SameSite=") as_str options.same_site)))))

unfoldable pub cookie_to_bytes : ℕ → Bytes → Cookie → Bytes
unfolding options_to_bytes
cookie_to_bytes now name c =
    codes "Set-Cookie: "
    ++ (name
        ++ (codes "=" ++ (c.value ++ (part [] (options_to_bytes now) c.options ++ codes "\r\n"))))

unfoldable pub to_bytes : ℕ → CookieStore → Bytes
unfolding cookie_to_bytes
to_bytes now [] = []
to_bytes now ((name, c) ∷ store) = cookie_to_bytes now name c ++ to_bytes now store

-- `impl From<&[u8]> for CookieStore`
abbrev is_blank : ℕ → Bool
is_blank c = c == b' ' || c == b'\t'

unfoldable pub trim_ascii : Bytes → Bytes
unfolding trim_start_by trim_end_by
trim_ascii s = trim_end_by is_blank (trim_start_by is_blank s)

unfoldable pub split_pair : Bytes → Bytes × Bytes
unfolding memchr trim_ascii
split_pair pair = elim (memchr b'=' pair) [
  | some pos ↦ (trim_ascii (take pos pair), trim_ascii (drop (pos + 1) pair))
  | none ↦ (pair, [])
]

-- One pair of the loop; each of its `continue`s leaves the map as it is.
unfoldable pub set_pair : Bytes → CookieStore → CookieStore
unfolding split_pair is_utf8 insert
set_pair pair map =
    let (name_bytes, value_bytes) = split_pair pair in
    if is_empty pair
    then map
    else if is_empty name_bytes
    then map
    else if is_utf8 name_bytes && is_utf8 value_bytes
    then insert name_bytes (record { value = value_bytes; options = none }) map
    else map

abbrev pub or_else : ℕ → Option ℕ → ℕ
or_else n none = n
or_else n (some m) = m

-- `while i < end`, over the bytes from `i`; each round takes a byte, so their number is fuel enough.
unfoldable pub read_pairs : ℕ → Bytes → CookieStore → CookieStore
unfolding memchr trim_ascii set_pair
read_pairs zero rest map = map
read_pairs (suc fuel) [] map = map
read_pairs (suc fuel) (c ∷ s) map =
    let pair_end = or_else (length (c ∷ s)) (memchr b';' (c ∷ s)) in
    read_pairs fuel (drop (pair_end + 1) (c ∷ s))
      (set_pair (trim_ascii (take pair_end (c ∷ s))) map)

unfoldable pub from : Bytes → CookieStore
unfolding read_pairs
from bytes = read_pairs (length bytes) bytes []
