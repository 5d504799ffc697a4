-- ===== src/StaticFiles/Ranges.antt =====
-- What `serve_file` of src/static_files.rs sends of a file, with and without a `range` header.
use mhttp.Common.{
  ℕ, zero, suc, ◌+◌, ◌-◌, ◌≤◌, ◌<◌, ◌≡◌, refl, ap, sym, ◌∙◌, Bool, true, false, Option, none, some,
  List, [], ◌∷◌, ◌++◌, Bytes, codes, ◌==◌, ltb, leb, length, take, drop, Lacks, Lacks-split,
  split_first, starts_with, All, arith, Bool-cases, Option-cases, inl, inr,
}
use mhttp.Common.Decimal.{
  to_decimal, to_decimal-IsDigit, IsDigit, parse_decimal, parse_decimal-to_decimal, u64_mod,
}
use mhttp.FieldLines.Fields
use mhttp.FieldLines.Fields.{Fields, get-set}
use mhttp.Response.{HttpResponse, stream, with_stream, new_response, set_on_sent, suppress}
use mhttp.Response.Status.{ok}
use mhttp.Connection.Writing.{copied}
use mhttp.Call.{HttpCall, response}
use mhttp.StaticFiles.{
  File, take_reads, or_number, range_of, kept_range, asked_range, partial_response, full_response,
}

-- An open file holds a content: its length and its reads are those of the content, also behind a seek,
-- and no read fails.
pub record Holds (file : File) (content : Bytes) : Type 0 where
  pub len : file.len ≡ some (length content)
  pub whole : copied file.reads ≡ (true, content)
  pub seeks :
      (start : ℕ)
      → start ≤ length content
      → (reads : List (Option Bytes)) × (file.seek start ≡ some reads)
        × (copied reads ≡ (true, drop start content))

-- The body is so many bytes of the content, from an offset.
pub record IsSlice {H : Type 0} (content : Bytes) (start count : ℕ) (r : HttpResponse H)
    : Type 0 where
  pub reads : List (Option Bytes)
  pub mime : Bytes
  pub body : r.body ≡ some (stream reads count (some mime))
  pub bytes : copied reads ≡ (true, take count (drop start content))
  pub within : start + count ≤ length content

take-whole : (n : ℕ) (s : Bytes) → n ≡ length s → take n s ≡ s
take-whole zero [] e = refl
take-whole zero (c ∷ s) e = absurd (omega arith)
take-whole (suc n) [] e = refl
take-whole (suc n) (c ∷ s) e = ap (◌∷◌ c) (take-whole n s (omega arith))

take_two : (n : ℕ) (s t : Bytes) → take n (s ++ t) ≡ take n s ++ take (n - length s) t
take_two zero s t = let e : zero - length s ≡ zero = omega arith in rw e refl
take_two (suc n) [] t = let e : suc n - zero ≡ suc n = omega arith in rw e refl
take_two (suc n) (c ∷ s) t =
    let e : suc n - suc (length s) ≡ n - length s = omega arith in
    rw e (ap (◌∷◌ c) (take_two n s t))

take-nil : (n : ℕ) → take {A = ℕ} n [] ≡ []
take-nil zero = refl
take-nil (suc n) = refl

-- Of what a reader gives, one that is cut gives as many bytes of the front, if no read fails.
copied_front :
    (n : ℕ) (reads : List (Option Bytes))
    → (copied reads).0 ≡ true
    → copied (take_reads n reads) ≡ (true, take n (copied reads).1)
unfolding copied take_reads
copied_front n [] h = ap (λ s. (true, s)) (sym (take-nil n))
copied_front zero (none ∷ reads) h = absurd (cc)
copied_front zero (some s ∷ reads) h = refl
copied_front (suc n) (none ∷ reads) h = absurd (cc)
copied_front (suc n) (some [] ∷ reads) h =
    let more : (suc n == 0) ≡ false = ground arith in rw more refl
copied_front (suc n) (some (c ∷ s) ∷ reads) h =
    let more : (suc n == 0) ≡ false = ground arith in
    let e : suc n - suc (length s) ≡ n - length s = omega arith in
    rw (more, e, copied_front (n - length s) reads h)
      (ap (λ t. (true, c ∷ t)) (sym (take_two n s (copied reads).1)))

copied-take_reads :
    (n : ℕ) (reads : List (Option Bytes)) (content : Bytes)
    → copied reads ≡ (true, content)
    → copied (take_reads n reads) ≡ (true, take n content)
copied-take_reads n reads content h =
    copied_front n reads (ap (λ p. p.0) h) ∙ ap (λ p. (true, take n p.1)) h

-- What a `range` header asks for: the first and the last byte, where they are given
abbrev pub number_text : Option ℕ → Bytes
number_text none = []
number_text (some n) = to_decimal n

unfoldable pub range_text : Option ℕ → Option ℕ → Bytes
range_text first last = codes "bytes=" ++ (number_text first ++ (codes "-" ++ number_text last))

abbrev pub InRange : Option ℕ → Type 0
InRange none = Unit
InRange (some n) = n < u64_mod

digits-Lacks : (s : Bytes) → All IsDigit s → Lacks b'-' s
digits-Lacks [] h = tt
digits-Lacks (c ∷ s) ((low, high), h) = ((λ e. omega (arith, e)), digits-Lacks s h)

number-Lacks : (n : Option ℕ) → Lacks b'-' (number_text n)
number-Lacks none = tt
number-Lacks (some n) = digits-Lacks (to_decimal n) (to_decimal-IsDigit n)

nothing_parsed : parse_decimal [] ≡ none
unfolding parse_decimal
nothing_parsed = refl

parse_number : (n : Option ℕ) → InRange n → parse_decimal (number_text n) ≡ n
parse_number none h = nothing_parsed
parse_number (some n) h = parse_decimal-to_decimal n h

range_of_lem :
    (first last : Option ℕ) (file_len : ℕ)
    → InRange first
    → InRange last
    → range_of (number_text first ++ (codes "-" ++ number_text last)) file_len
      ≡ (or_number 0 first, or_number (file_len - 1) last)
unfolding range_of
range_of_lem first last file_len f l =
    let parts =
      split_first b'-' (number_text first) (number_text last) (number-Lacks first)
      ∙ ap (◌∷◌ (number_text first)) (Lacks-split b'-' (number_text last) (number-Lacks last)) in
    rw (parts, parse_number first f, parse_number last l) refl

pub asked_range_lem :
    (first last : Option ℕ) (file_len : ℕ)
    → InRange first
    → InRange last
    → or_number 0 first ≤ or_number (file_len - 1) last
    → or_number (file_len - 1) last < file_len
    → asked_range (some (range_text first last)) file_len
      ≡ some (or_number 0 first, or_number (file_len - 1) last)
unfolding asked_range range_text starts_with
asked_range_lem first last file_len f l ordered within =
    let low : leb (or_number 0 first) (or_number (file_len - 1) last) ≡ true = ground arith in
    let high : ltb (or_number (file_len - 1) last) file_len ≡ true = ground arith in
    ap (λ r. kept_range true r file_len) (range_of_lem first last file_len f l)
    ∙ rw (low, high) refl

kept_range-InFile :
    (is_bytes : Bool) (r : ℕ × ℕ) (file_len start end : ℕ)
    → kept_range is_bytes r file_len ≡ some (start, end)
    → (start ≤ end) × (end < file_len)
kept_range-InFile is_bytes (s, e) file_len start end h = (ground arith, ground arith)

pub asked_range-InFile :
    (asked : Option Bytes) (file_len start end : ℕ)
    → asked_range asked file_len ≡ some (start, end)
    → (start ≤ end) × (end < file_len)
unfolding asked_range
asked_range-InFile none file_len start end h = absurd (cc)
asked_range-InFile (some text) file_len start end h =
    kept_range-InFile (starts_with text (codes "bytes=")) (range_of (drop 6 text) file_len) file_len
      start end h

abbrev pub range_header : ℕ → ℕ → ℕ → Bytes
range_header start end file_len =
    codes "bytes "
    ++ (to_decimal start ++ (codes "-" ++ (to_decimal end ++ (codes "/" ++ to_decimal file_len))))

module _ {H : Type 0} where
  pub partial-IsSlice :
      (mime content : Bytes) (start end : ℕ) (reads : List (Option Bytes)) (r : HttpResponse H)
      → start ≤ end
      → end < length content
      → copied reads ≡ (true, drop start content)
      → IsSlice content start
          (end - start + 1)
          (partial_response mime (length content) ((start, end), reads) r)
  unfolding partial_response with_stream
  partial-IsSlice mime content start end reads r ordered within held = record {
    reads = take_reads (end - start + 1) reads;
    mime = mime;
    body = refl;
    bytes = copied-take_reads (end - start + 1) reads (drop start content) held;
    within = omega arith;
  }

  pub full-IsSlice :
      (mime content : Bytes) (reads : List (Option Bytes)) (r : HttpResponse H)
      → copied reads ≡ (true, content)
      → IsSlice content 0 (length content) (full_response mime (length content) reads r)
  unfolding full_response with_stream
  full-IsSlice mime content reads r held = record {
    reads = reads;
    mime = mime;
    body = refl;
    bytes = held ∙ ap (λ s. (true, s)) (sym (take-whole (length content) content refl));
    within = omega arith;
  }

  -- A new response is ok, and has the identifier of the request.
  pub response-new :
      (call : HttpCall H)
      → ((response call).0.status_code ≡ ok)
        × ((response call).0.field_lines ≡ Fields.set [] (codes "x-request-id") call.request_id)
  unfolding response new_response set_on_sent suppress
  response-new call = elim (Option-cases call.response_hook) [
    | inl e ↦ elim (Bool-cases call.suppress_body) [
      | inl f ↦ rw (e, f) (refl, refl)
      | inr f ↦ rw (e, f) (refl, refl)
    ]
    | inr (hook, e) ↦ elim (Bool-cases call.suppress_body) [
      | inl f ↦ rw (e, f) (refl, refl)
      | inr f ↦ rw (e, f) (refl, refl)
    ]
  ]
