-- ===== src/Request/Tests.antt =====
-- Requests parsed from concrete heads.
use mhttp.Common.{refl, codes, [], ◌∷◌, arith, to_ascii_lowercase, eq_ignore_ascii_case}
use mhttp.Common.Utf8.{is_utf8}
use mhttp.Common.Decimal.{parse_decimal}
use mhttp.FieldLines.Fields
use mhttp.FieldLines.Fields.{Fields}
use mhttp.FieldLines.Parse.{trim_ascii}
use mhttp.Request.{content_length_of}
use mhttp.Request.Parsing.{IsWritable}

abbrev pub posted : Fields
posted = (codes "host", codes "h") ∷ (codes "content-length", codes "12") ∷ []

pub posted-IsWritable : IsWritable (codes "/a") (codes "HTTP/1.1") posted
unfolding eq_ignore_ascii_case trim_ascii is_utf8 to_ascii_lowercase Fields.print Fields.get
    content_length_of parse_decimal
posted-IsWritable = record {
  no_space = omega arith;
  route_line = omega arith;
  text = refl;
  version_line = omega arith;
  clean = (
    record {
      named = refl;
      lower = refl;
      no_colon = omega arith;
      name_line = omega arith;
      value_line = omega arith;
      name_trim = refl;
      value_trim = refl;
      name_text = refl;
      value_text = refl;
    },
    (
      record {
        named = refl;
        lower = refl;
        no_colon = omega arith;
        name_line = omega arith;
        value_line = omega arith;
        name_trim = refl;
        value_trim = refl;
        name_text = refl;
        value_text = refl;
      },
      tt,
    ),
  );
  fresh = (refl, (refl, tt));
  room = omega arith;
}
