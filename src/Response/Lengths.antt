-- ===== src/Response/Lengths.antt =====
-- The length that a response of src/response.rs announces.
use mhttp.Common.{
  ℕ, ◌≡◌, ◌≢◌, ◌<◌, refl, ap, ◌∙◌, true, false, none, some, List, ◌++◌, Bytes, codes, ◌==◌, arith,
  eq_ignore_ascii_case, length,
}
use mhttp.Common.Decimal.{to_decimal, parse_decimal, parse_decimal-to_decimal, u64_mod}
use mhttp.FieldLines.Fields
use mhttp.FieldLines.Fields.{Fields, get-set}
use mhttp.Response.Reserved.{stream_fields, with_stream_fields}
use mhttp.Common.{Option}
use mhttp.Response.{HttpResponse, add_header_internal, with_bytes, with_stream}

abbrev length_header : Bytes
length_header = codes "content-length"

abbrev transfer_header : Bytes
transfer_header = codes "transfer-encoding"

-- A header that is not there is set to a value.
set_fresh :
    (fs : Fields) (k v : Bytes)
    → eq_ignore_ascii_case k k ≡ true
    → Fields.get fs k ≡ none
    → Fields.get (Fields.set fs k v) k ≡ some v
set_fresh fs k v same e = get-set fs k v k ∙ rw (same, e) refl

-- One that is there gets a second value behind it.
set_again :
    (fs : Fields) (k w v : Bytes)
    → eq_ignore_ascii_case k k ≡ true
    → Fields.get fs k ≡ some w
    → Fields.get (Fields.set fs k v) k ≡ some (w ++ (codes ", " ++ v))
set_again fs k w v same e = get-set fs k v k ∙ rw (same, e) refl

set_apart :
    (fs : Fields) (k v j : Bytes)
    → eq_ignore_ascii_case k j ≡ false
    → Fields.get (Fields.set fs k v) j ≡ Fields.get fs j
set_apart fs k v j e = get-set fs k v j ∙ rw e refl

same_length : eq_ignore_ascii_case length_header length_header ≡ true
unfolding eq_ignore_ascii_case
same_length = refl

same_transfer : eq_ignore_ascii_case transfer_header transfer_header ≡ true
unfolding eq_ignore_ascii_case
same_transfer = refl

type_length : eq_ignore_ascii_case (codes "content-type") length_header ≡ false
unfolding eq_ignore_ascii_case
type_length = refl

type_transfer : eq_ignore_ascii_case (codes "content-type") transfer_header ≡ false
unfolding eq_ignore_ascii_case
type_transfer = refl

length_transfer : eq_ignore_ascii_case length_header transfer_header ≡ false
unfolding eq_ignore_ascii_case
length_transfer = refl

transfer_length : eq_ignore_ascii_case transfer_header length_header ≡ false
unfolding eq_ignore_ascii_case
transfer_length = refl

zero_written : to_decimal 0 ≡ codes "0"
unfolding to_decimal
zero_written = refl

stream_answers :
    (n : ℕ) (ct : Bytes) (fs : Fields)
    → Fields.get fs length_header ≡ none
    → Fields.get fs transfer_header ≡ none
    → (n ≢ 0
        → Fields.get (Fields.set (stream_fields n ct fs) length_header (to_decimal n)) length_header
          ≡ some (to_decimal n ++ (codes ", " ++ to_decimal n)))
      × (n ≡ 0
          → (Fields.get
                (Fields.set (stream_fields n ct fs) length_header (to_decimal n))
                length_header
              ≡ some (codes "0"))
            × (Fields.get
                  (Fields.set (stream_fields n ct fs) length_header (to_decimal n))
                  transfer_header
                ≡ some (codes "chunked")))
unfolding stream_fields
stream_answers n ct fs fresh plain =
    let typed = Fields.set fs (codes "content-type") ct in
    let no_length = set_apart fs (codes "content-type") ct length_header type_length ∙ fresh in
    let no_transfer =
      set_apart fs (codes "content-type") ct transfer_header type_transfer ∙ plain in
    let d = to_decimal n in
    (
      λ more.
          let test : (n == 0) ≡ false = ground arith in
          rw test (
            set_again (Fields.set typed length_header d) length_header d d same_length
              (set_fresh typed length_header d same_length no_length)),
      λ none_known.
          let chunked = Fields.set typed transfer_header (codes "chunked") in
          let written : d ≡ codes "0" = rw none_known zero_written in
          let test : (n == 0) ≡ true = ground arith in
          (
            rw test (
                set_fresh chunked length_header d same_length (
                  set_apart typed transfer_header (codes "chunked") length_header transfer_length
                  ∙ no_length)
                ∙ ap some written),
            rw test (
                set_apart chunked length_header d transfer_header length_transfer
                ∙ set_fresh typed transfer_header (codes "chunked") same_transfer no_transfer),
          ),
    )

module _ {H : Type 0} where
  -- A response of bytes that had no length before announces a length that is read as the number of its
  -- bytes.
  pub with_bytes-length :
      (b ct : Bytes) (r : HttpResponse H)
      → Fields.get r.field_lines length_header ≡ none
      → length b < u64_mod
      → (v : Bytes) × (Fields.get (with_bytes b ct r).field_lines length_header ≡ some v)
        × (parse_decimal v ≡ some (length b))
  unfolding with_bytes add_header_internal
  with_bytes-length b ct r fresh small =
      let typed = Fields.set r.field_lines (codes "content-type") ct in
      let before =
        set_apart r.field_lines (codes "content-type") ct length_header type_length ∙ fresh in
      (
        to_decimal (length b),
        set_fresh typed length_header (to_decimal (length b)) same_length before,
        parse_decimal-to_decimal (length b) small,
      )

  -- A stream of known length, in a response that had no length before, announces the length twice in
  -- one header, joined by a comma; one of unknown length announces a length of zero beside the chunked
  -- coding.
  pub with_stream_length :
      (reads : List (Option Bytes)) (n : ℕ) (ct : Bytes) (r : HttpResponse H)
      → Fields.get r.field_lines length_header ≡ none
      → Fields.get r.field_lines transfer_header ≡ none
      → (n ≢ 0
          → Fields.get (with_stream reads n ct r).field_lines length_header
            ≡ some (to_decimal n ++ (codes ", " ++ to_decimal n)))
        × (n ≡ 0
            → (Fields.get (with_stream reads n ct r).field_lines length_header ≡ some (codes "0"))
              × (Fields.get (with_stream reads n ct r).field_lines transfer_header
                  ≡ some (codes "chunked")))
  with_stream_length reads n ct r fresh plain =
      let shape = with_stream_fields reads n ct r in
      let answers = stream_answers n ct r.field_lines fresh plain in
      (
        λ more. ap (λ fs. Fields.get fs length_header) shape ∙ answers.0 more,
        λ none_known.
            let (a, b) = answers.1 none_known in
            (
              ap (λ fs. Fields.get fs length_header) shape ∙ a,
              ap (λ fs. Fields.get fs transfer_header) shape ∙ b,
            ),
      )
