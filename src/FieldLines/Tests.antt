-- ===== src/FieldLines/Tests.antt =====
-- Runs of src/field_lines.rs and the theorems about it at concrete inputs.
use mhttp.Common.{
  ◌≡◌, refl, none, some, [], ◌∷◌, ◌++◌, arith, codes, Option, Bytes, All, eq_ignore_ascii_case,
  to_ascii_lowercase,
}
use mhttp.Common.Utf8.{is_utf8}
use mhttp.FieldLines.{FieldLines, set, get, remove, to_bytes}
use mhttp.FieldLines.Fields
use mhttp.FieldLines.Fields.{Fields, get-set}
use mhttp.FieldLines.Slices.{contents, IsValid}
use mhttp.FieldLines.Refine.{set-refines, remove-refines, checked}
use mhttp.FieldLines.Parse.{from, upsert, cut_end, trim_ascii}
use mhttp.FieldLines.Lines.{lines, set_lines}
use mhttp.FieldLines.Block.{from-refines}
use mhttp.FieldLines.RoundTrip.{IsClean, Fresh, from-print}

abbrev two_fields : FieldLines
two_fields = record {
  arena = codes "hosta.comaccepttext";
  headers =
      record { name_start = 0; name_len = 4; value_start = 4; value_len = 5 }
      ∷ record { name_start = 9; name_len = 6; value_start = 15; value_len = 4 }
      ∷ [];
}

two_fields-IsValid : IsValid two_fields
two_fields-IsValid = record { fits = omega arith; inside = omega arith }

abbrev block : Bytes
block = codes "Host: a.com\r\nACCEPT:  text \r\naccept: html\r\nbad line\r\n\r\n"

abbrev printed : Option FieldLines → Option Bytes
printed none = none
printed (some fl) = to_bytes fl

from_runs : printed (from block) ≡ some (codes "host: a.com\r\naccept: text, html\r\n")
unfolding from upsert to_bytes
from_runs = refl

set_runs :
    printed (set two_fields (codes "ACCEPT") (codes "html"))
    ≡ some (codes "host: a.com\r\naccept: text, html\r\n")
unfolding set to_bytes
set_runs = refl

get_runs : get two_fields (codes "Accept") ≡ some (some (codes "text"))
unfolding get
get_runs = refl

set-refines_example :
    (fl' : FieldLines) × (set two_fields (codes "Accept") (codes "html") ≡ some fl')
    × IsValid fl'
    × (contents fl' ≡ Fields.set (contents two_fields) (codes "Accept") (codes "html"))
set-refines_example =
    set-refines two_fields (codes "Accept") (codes "html") two_fields-IsValid (omega arith)

remove-refines_example :
    (fl' : FieldLines) × (remove two_fields (codes "Host")
      ≡ some (fl', checked (Fields.get (contents two_fields) (codes "Host"))))
    × IsValid fl'
    × (contents fl' ≡ Fields.remove (contents two_fields) (codes "Host"))
remove-refines_example = remove-refines two_fields (codes "Host") two_fields-IsValid

get-set_example :
    Fields.get (Fields.set (contents two_fields) (codes "Accept") (codes "html")) (codes "ACCEPT")
    ≡ some (codes "text, html")
unfolding Fields.get eq_ignore_ascii_case
get-set_example = get-set (contents two_fields) (codes "Accept") (codes "html") (codes "ACCEPT")

from-refines_example :
    (fl : FieldLines) × (from block ≡ some fl)
    × IsValid fl
    × (contents fl ≡ set_lines [] (lines (cut_end block)))
from-refines_example = from-refines block (omega arith)

abbrev plain : Fields
plain = (codes "host", codes "a.com") ∷ (codes "accept", codes "text") ∷ []

plain-IsClean : All IsClean plain
unfolding trim_ascii is_utf8 to_ascii_lowercase
plain-IsClean = (
  record {
    named = refl;
    lower = refl;
    no_colon = omega arith;
    name_line = omega arith;
    value_line = omega arith;
    name_trim = refl;
    value_trim = refl;
    name_text = refl;
    value_text = refl;
  },
  (
    record {
      named = refl;
      lower = refl;
      no_colon = omega arith;
      name_line = omega arith;
      value_line = omega arith;
      name_trim = refl;
      value_trim = refl;
      name_text = refl;
      value_text = refl;
    },
    tt,
  ),
)

plain-Fresh : Fresh [] plain
unfolding Fields.get eq_ignore_ascii_case
plain-Fresh = (refl, (refl, tt))

from-print_example :
    (fl : FieldLines) × (from (Fields.print plain ++ codes "\r\n") ≡ some fl)
    × IsValid fl
    × (contents fl ≡ plain)
unfolding Fields.print
from-print_example = from-print plain plain-IsClean plain-Fresh (omega arith)
