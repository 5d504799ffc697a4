-- ===== src/StaticFiles/Served.antt =====
-- The response that `serve_file` of src/static_files.rs sends for a file.
use mhttp.Common.{
  ℕ, ◌+◌, ◌-◌, ◌≤◌, ◌<◌, ◌≡◌, ◌⊎◌, refl, ap, sym, ◌∙◌, false, Option, none, some, List, [], Bytes,
  codes, ◌==◌, length, is_empty, eq_ignore_ascii_case, arith, Bool-cases, Option-cases, inl, inr,
}
use mathlib.Core.Path.{subst}
use mhttp.Common.Decimal.{to_decimal}
use mhttp.FieldLines.Fields
use mhttp.FieldLines.Fields.{Fields, get-set}
use mhttp.Response.{
  HttpResponse, with_stream, set_status_code, add_header_internal, add_header, any_ignore_case,
}
use mhttp.Response.Status.{ok, partial_content}
use mhttp.Response.Reserved.{set_other, stream_fields, with_stream_fields}
use mhttp.Call.{HttpCall, header, response}
use mhttp.StaticFiles.{
  File, FileSystem, StaticFileOptions, tail_of, serve_canonical, static_response, take_reads,
  or_number, asked_range, seek_range, partial_response, full_response, file_response, serve_range,
  serve_file, mime_from_path,
}
use mhttp.StaticFiles.Paths.{join, Under, Under-is_under}
use mhttp.StaticFiles.Ranges.{
  Holds, IsSlice, InRange, range_text, range_header, asked_range_lem, asked_range-InFile,
  partial-IsSlice, full-IsSlice, response-new,
}

-- All of the content, without the header that offers ranges, or a part that is said to be one
abbrev pub IsSent : {H : Type 0} → Bytes → HttpResponse H → Type 0
IsSent content r =
    ((r.status_code ≡ ok)
      × (Fields.get r.field_lines (codes "accept-ranges") ≡ none)
      × IsSlice content 0 (length content) r)
    ⊎ ((r.status_code ≡ partial_content)
        × ((start : ℕ) × (count : ℕ) × IsSlice content start count r))

-- The status, the header and the body of a part
pub record IsPart {H : Type 0} (content : Bytes) (start end : ℕ) (r : HttpResponse H) : Type 0 where
  pub status : r.status_code ≡ partial_content
  pub range :
      Fields.get r.field_lines (codes "content-range")
      ≡ some (range_header start end (length content))
  pub slice : IsSlice content start (end - start + 1) r

-- A header that no stream sets
abbrev IsApart : Bytes → Type 0
IsApart k =
    (eq_ignore_ascii_case (codes "content-type") k ≡ false)
    × (eq_ignore_ascii_case (codes "content-length") k ≡ false)
    × (eq_ignore_ascii_case (codes "transfer-encoding") k ≡ false)

range-IsApart : IsApart (codes "content-range")
unfolding eq_ignore_ascii_case
range-IsApart = (refl, refl, refl)

accept-IsApart : IsApart (codes "accept-ranges")
unfolding eq_ignore_ascii_case
accept-IsApart = (refl, refl, refl)

range_accept : eq_ignore_ascii_case (codes "accept-ranges") (codes "content-range") ≡ false
unfolding eq_ignore_ascii_case
range_accept = refl

nothing_offered :
    (id : Bytes)
    → Fields.get (Fields.set [] (codes "x-request-id") id) (codes "accept-ranges") ≡ none
unfolding Fields.set Fields.get eq_ignore_ascii_case
nothing_offered id = refl

range_set :
    (id v : Bytes)
    → Fields.get
        (Fields.set (Fields.set [] (codes "x-request-id") id) (codes "content-range") v)
        (codes "content-range")
      ≡ some v
unfolding Fields.set Fields.get eq_ignore_ascii_case
range_set id v = refl

stream_fields_apart :
    (n : ℕ) (ct k : Bytes) (fs : Fields)
    → IsApart k
    → Fields.get (stream_fields n ct fs) k ≡ Fields.get fs k
unfolding stream_fields
stream_fields_apart n ct k fs (type, len, coding) =
    let typed = Fields.set fs (codes "content-type") ct in
    let plain = set_other fs (codes "content-type") ct k type in
    elim (Bool-cases (n == 0)) [
      | inl e ↦
          rw e (set_other typed (codes "transfer-encoding") (codes "chunked") k coding ∙ plain)
      | inr e ↦ rw e (set_other typed (codes "content-length") (to_decimal n) k len ∙ plain)
    ]

module _ {H : Type 0} where
  with_stream_apart :
      (reads : List (Option Bytes)) (n : ℕ) (ct k : Bytes) (r : HttpResponse H)
      → IsApart k
      → Fields.get (with_stream reads n ct r).field_lines k ≡ Fields.get r.field_lines k
  with_stream_apart reads n ct k r apart =
      ap (λ fs. Fields.get fs k) (with_stream_fields reads n ct r)
      ∙ set_other (stream_fields n ct r.field_lines) (codes "content-length") (to_decimal n) k
          apart.1
      ∙ stream_fields_apart n ct k r.field_lines apart

  partial-range :
      (mime : Bytes) (file_len start end : ℕ) (reads : List (Option Bytes)) (id : Bytes)
      (r : HttpResponse H)
      → r.field_lines ≡ Fields.set [] (codes "x-request-id") id
      → Fields.get
          (partial_response mime file_len ((start, end), reads) r).field_lines
          (codes "content-range")
        ≡ some (range_header start end file_len)
  unfolding partial_response set_status_code add_header_internal
  partial-range mime file_len start end reads id r fresh =
      let v = range_header start end file_len in
      let count = end - start + 1 in
      with_stream_apart (take_reads count reads) count mime (codes "content-range") _ range-IsApart
      ∙ set_other (Fields.set r.field_lines (codes "content-range") v) (codes "accept-ranges")
          (codes "bytes") (codes "content-range") range_accept
      ∙ rw fresh (range_set id v)

  stream-status :
      (reads : List (Option Bytes)) (n : ℕ) (ct : Bytes) (r : HttpResponse H)
      → (with_stream reads n ct r).status_code ≡ r.status_code
  unfolding with_stream add_header_internal
  stream-status reads n ct r = elim (Bool-cases (n == 0)) [ inl e ↦ rw e refl | inr e ↦ rw e refl ]

  partial-status :
      (mime : Bytes) (file_len : ℕ) (part : (ℕ × ℕ) × List (Option Bytes)) (r : HttpResponse H)
      → (partial_response mime file_len part r).status_code ≡ partial_content
  unfolding partial_response set_status_code add_header_internal
  partial-status mime file_len ((start, end), reads) r =
      let count = end - start + 1 in stream-status (take_reads count reads) count mime _

  full-status :
      (mime : Bytes) (file_len : ℕ) (reads : List (Option Bytes)) (r : HttpResponse H)
      → (full_response mime file_len reads r).status_code ≡ r.status_code
  unfolding full_response add_header any_ignore_case eq_ignore_ascii_case
  full-status mime file_len reads r =
      stream-status reads file_len mime (add_header (codes "accept-ranges") (codes "bytes") r)

  full-offer :
      (mime : Bytes) (file_len : ℕ) (reads : List (Option Bytes)) (id : Bytes) (r : HttpResponse H)
      → r.field_lines ≡ Fields.set [] (codes "x-request-id") id
      → Fields.get (full_response mime file_len reads r).field_lines (codes "accept-ranges") ≡ none
  unfolding full_response add_header any_ignore_case eq_ignore_ascii_case
  full-offer mime file_len reads id r fresh =
      with_stream_apart reads file_len mime (codes "accept-ranges")
        (add_header (codes "accept-ranges") (codes "bytes") r) accept-IsApart
      ∙ rw fresh (nothing_offered id)

  serve_range-none :
      (path : Bytes) (file : File) (file_len : ℕ) (call : HttpCall H)
      → asked_range (header (codes "range") call) file_len ≡ none
      → (serve_range path file file_len call).0
        ≡ full_response (mime_from_path path) file_len file.reads (response call).0
  unfolding serve_range
  serve_range-none path file file_len call e = rw e refl

  serve_range-some :
      (path : Bytes) (file : File) (file_len start end : ℕ) (reads : List (Option Bytes))
      (call : HttpCall H)
      → asked_range (header (codes "range") call) file_len ≡ some (start, end)
      → file.seek start ≡ some reads
      → (serve_range path file file_len call).0
        ≡ partial_response (mime_from_path path) file_len ((start, end), reads) (response call).0
  unfolding serve_range
  serve_range-some path file file_len start end reads call e f =
      let sought : seek_range file (some (start, end)) ≡ some ((start, end), reads) =
        rw (f, seek_range) refl in
      ap (λ part. file_response (mime_from_path path) file_len file.reads part (response call).0)
        (ap (seek_range file) e ∙ sought)

  serve_range-IsPart :
      (path : Bytes) (file : File) (content : Bytes) (start end : ℕ) (call : HttpCall H)
      → Holds file content
      → asked_range (header (codes "range") call) (length content) ≡ some (start, end)
      → IsPart content start end (serve_range path file (length content) call).0
  serve_range-IsPart path file content start end call held e =
      let (ordered, within) = asked_range-InFile _ (length content) start end e in
      let (reads, sought, rest) = held.seeks start (omega arith) in
      let mime = mime_from_path path in
      let r = (response call).0 in
      let part : IsPart content start end
          (partial_response mime (length content) ((start, end), reads) r) =
        record {
          status = partial-status mime (length content) ((start, end), reads) r;
          range =
              partial-range mime (length content) start end reads call.request_id r
                (response-new call).1;
          slice = partial-IsSlice mime content start end reads r ordered within rest;
        } in
      subst (IsPart content start end)
        (sym (serve_range-some path file (length content) start end reads call e sought)) part

  serve_range-IsSent :
      (path : Bytes) (file : File) (content : Bytes) (call : HttpCall H)
      → Holds file content
      → IsSent content (serve_range path file (length content) call).0
  serve_range-IsSent path file content call held =
      elim (Option-cases (asked_range (header (codes "range") call) (length content))) [
        | inl e ↦
            let mime = mime_from_path path in
            let r = (response call).0 in
            subst (IsSent content) (sym (serve_range-none path file (length content) call e)) (
              inl (
                full-status mime (length content) file.reads r ∙ (response-new call).0,
                full-offer mime (length content) file.reads call.request_id r (response-new call).1,
                full-IsSlice mime content file.reads r held.whole,
              ))
        | inr ((start, end), e) ↦
            let part = serve_range-IsPart path file content start end call held e in
            inr (part.status, (start, end - start + 1, part.slice))
      ]

  open_same :
      (fs : FileSystem) (path : Bytes) (file : File) (content : Bytes) (call : HttpCall H)
      → fs.open_file path ≡ some file
      → Holds file content
      → serve_file fs path call ≡ serve_range path file (length content) call
  unfolding serve_file
  open_same fs path file content call found held = rw (found, held.len) refl

  serve_file-IsSent :
      (fs : FileSystem) (path : Bytes) (file : File) (content : Bytes) (call : HttpCall H)
      → fs.open_file path ≡ some file
      → Holds file content
      → IsSent content (serve_file fs path call).0
  serve_file-IsSent fs path file content call found held =
      subst (λ p. IsSent content p.0) (sym (open_same fs path file content call found held))
        (serve_range-IsSent path file content call held)

  -- A range of which the first or the last byte is given, or both, is answered with its bytes, with the
  -- status of a part and with the header that says which they are, where the range is in the file. The
  -- range begins at 0 where no first byte is given, and goes to the end where no last byte is.
  pub serve_file-IsPart :
      (fs : FileSystem) (path : Bytes) (file : File) (content : Bytes) (first last : Option ℕ)
      (call : HttpCall H)
      → fs.open_file path ≡ some file
      → Holds file content
      → header (codes "range") call ≡ some (range_text first last)
      → InRange first
      → InRange last
      → or_number 0 first ≤ or_number (length content - 1) last
      → or_number (length content - 1) last < length content
      → IsPart content
          (or_number 0 first)
          (or_number (length content - 1) last)
          (serve_file fs path call).0
  serve_file-IsPart fs path file content first last call found held asked f l ordered within =
      let range =
        ap (λ h. asked_range h (length content)) asked
        ∙ asked_range_lem first last (length content) f l ordered within in
      subst (λ p. IsPart content (or_number 0 first) (or_number (length content - 1) last) p.0)
        (sym (open_same fs path file content call found held))
        (serve_range-IsPart path file content _ _ call held range)

  static_response_found :
      (fs : FileSystem) (opts : StaticFileOptions) (call : HttpCall H) (base path : Bytes)
      → is_empty (tail_of call) ≡ false
      → fs.canonicalize opts.dir ≡ some base
      → fs.canonicalize (join opts.dir (tail_of call)) ≡ some path
      → Under base path
      → fs.is_dir path ≡ false
      → static_response fs opts call ≡ serve_file fs path call
  unfolding static_response serve_canonical
  static_response_found fs opts call base path more dir found under is_file =
      rw (more, dir, found, Under-is_under base path under, is_file) refl

  -- A request for a file below the directory, which can be opened, is answered with the file's whole
  -- content and the status ok, where no header offers ranges, or with a part that lies inside of its
  -- content and the status of a part, whatever range the request asks for; the length that the stream
  -- is given is the number of the bytes that it gives.
  pub static_response-IsSent :
      (fs : FileSystem) (opts : StaticFileOptions) (call : HttpCall H) (base path content : Bytes)
      (file : File)
      → is_empty (tail_of call) ≡ false
      → fs.canonicalize opts.dir ≡ some base
      → fs.canonicalize (join opts.dir (tail_of call)) ≡ some path
      → Under base path
      → fs.is_dir path ≡ false
      → fs.open_file path ≡ some file
      → Holds file content
      → IsSent content (static_response fs opts call).0
  static_response-IsSent fs opts call base path content file more dir found under is_file opened
        held =
      subst (λ p. IsSent content p.0)
        (sym (static_response_found fs opts call base path more dir found under is_file))
        (serve_file-IsSent fs path file content call opened held)
