-- ===== src/StaticFiles.antt =====
-- `serve_static` of src/static_files.rs. The file system is not part of the source, and is a parameter: a
-- path is its bytes, and an open file is what its reader returns, in order.
pub mod Paths
pub mod Confined
pub mod Ranges
pub mod Served
pub mod Tests
use mhttp.Common.{
  ℕ, zero, suc, ◌+◌, ◌-◌, Bool, true, false, ◌&&◌, not, Option, none, some, List, [], ◌∷◌, ◌++◌,
  Bytes, codes, ltb, leb, if◌then◌else◌, length, take, drop, is_empty, starts_with, bytes_eq, split,
  trim_start_by, ◌==◌, get_elem?,
}
use mhttp.Common.Decimal.{to_decimal, parse_decimal}
use mhttp.Response.{
  HttpResponse, with_stream, empty, set_status_code, add_header, add_header_internal,
}
use mhttp.Response.Status.{
  HttpStatusCode, partial_content, forbidden, not_found, internal_server_error,
}
use mhttp.Call.{HttpCall, header, path_param, response}
use mhttp.Server.{Clock, send_on}
use mhttp.StaticFiles.Paths.{join, is_under, extension}

-- An open file: `metadata().len()`, the reads from its start, and the reads behind a `seek`; `none` is
-- an error, also of one read.
pub record File : Type 0 where
  pub len : Option ℕ
  pub reads : List (Option Bytes)
  pub seek : ℕ → Option (List (Option Bytes))

pub record FileSystem : Type 0 where
  pub canonicalize : Bytes → Option Bytes
  pub is_dir : Bytes → Bool
  pub exists : Bytes → Bool
  pub open_file : Bytes → Option File

pub record StaticFileOptions : Type 0 where
  pub dir : Bytes
  pub index : Option Bytes

-- The `match` of `mime_from_path`: the first text that is the extension
unfoldable pub mime_in : List (Bytes × Bytes) → Bytes → Bytes
unfolding bytes_eq
mime_in [] e = codes "application/octet-stream"
mime_in ((ext, mime) ∷ table) e =
    let rest = mime_in table e in if bytes_eq e ext then mime else rest

abbrev pub mime_table : List (Bytes × Bytes)
mime_table =
    (codes "html", codes "text/html; charset=utf-8")
    ∷ (codes "htm", codes "text/html; charset=utf-8")
    ∷ (codes "css", codes "text/css; charset=utf-8")
    ∷ (codes "js", codes "application/javascript")
    ∷ (codes "json", codes "application/json")
    ∷ (codes "png", codes "image/png")
    ∷ (codes "jpg", codes "image/jpeg")
    ∷ (codes "jpeg", codes "image/jpeg")
    ∷ (codes "gif", codes "image/gif")
    ∷ (codes "svg", codes "image/svg+xml")
    ∷ (codes "ico", codes "image/x-icon")
    ∷ (codes "woff", codes "font/woff")
    ∷ (codes "woff2", codes "font/woff2")
    ∷ (codes "ttf", codes "font/ttf")
    ∷ (codes "pdf", codes "application/pdf")
    ∷ (codes "txt", codes "text/plain; charset=utf-8")
    ∷ (codes "xml", codes "application/xml")
    ∷ (codes "wasm", codes "application/wasm")
    ∷ []

unfoldable pub mime_from_path : Bytes → Bytes
unfolding extension mime_in
mime_from_path path = elim (extension path) [
  | none ↦ codes "application/octet-stream"
  | some e ↦ mime_in mime_table e
]

-- `AsyncReadExt::take`: a reader that ends behind so many bytes
unfoldable pub take_reads : ℕ → List (Option Bytes) → List (Option Bytes)
take_reads n [] = []
take_reads n (none ∷ reads) = let rest = take_reads n reads in if n == 0 then [] else none ∷ rest
take_reads n (some s ∷ reads) =
    let rest = take_reads (n - length s) reads in if n == 0 then [] else some (take n s) ∷ rest

abbrev pub or_number : ℕ → Option ℕ → ℕ
or_number d none = d
or_number d (some n) = n

abbrev pub parse_part : Option Bytes → Option ℕ
parse_part none = none
parse_part (some s) = parse_decimal s

-- `start` and `end`
unfoldable pub range_of : Bytes → ℕ → ℕ × ℕ
unfolding split parse_decimal
range_of range_str file_len =
    let parts = split b'-' range_str in
    (
      or_number 0 (parse_part (get_elem? parts 0)),
      or_number (file_len - 1) (parse_part (get_elem? parts 1)),
    )

-- A range of bytes that the file has
abbrev pub kept_range : Bool → ℕ × ℕ → ℕ → Option (ℕ × ℕ)
kept_range is_bytes (start, end) file_len =
    if is_bytes && (leb start end && ltb end file_len) then some (start, end) else none

-- The range that a header asks for, where the file has it
unfoldable pub asked_range : Option Bytes → ℕ → Option (ℕ × ℕ)
unfolding starts_with range_of
asked_range none file_len = none
asked_range (some range_header) file_len =
    kept_range (starts_with range_header (codes "bytes=")) (range_of (drop 6 range_header) file_len)
      file_len

-- The reads of a range, unless the seek fails
abbrev pub seek_range : File → Option (ℕ × ℕ) → Option ((ℕ × ℕ) × List (Option Bytes))
seek_range file none = none
seek_range file (some (start, end)) = elim (file.seek start) [
  | none ↦ none
  | some reads ↦ some ((start, end), reads)
]

module _ {H : Type 0} where
  -- `call.response().status_code(code).empty()`, which is then sent
  unfoldable pub answer_empty : HttpStatusCode → HttpCall H → HttpResponse H × HttpCall H
  unfolding response set_status_code empty
  answer_empty code call = let (r, after) = response call in (empty (set_status_code code r), after)

  unfoldable pub partial_response :
      Bytes → ℕ → (ℕ × ℕ) × List (Option Bytes) → HttpResponse H → HttpResponse H
  unfolding set_status_code add_header_internal with_stream to_decimal
  partial_response mime file_len ((start, end), reads) r =
      let content_length = end - start + 1 in
      with_stream (take_reads content_length reads) content_length mime (
        add_header_internal (codes "accept-ranges") (codes "bytes") (
          add_header_internal (codes "content-range")
            (codes "bytes "
              ++ (to_decimal start
                  ++ (codes "-" ++ (to_decimal end ++ (codes "/" ++ to_decimal file_len)))))
            (set_status_code partial_content r)))

  unfoldable pub full_response : Bytes → ℕ → List (Option Bytes) → HttpResponse H → HttpResponse H
  unfolding add_header with_stream
  full_response mime file_len reads r =
      with_stream reads file_len mime (add_header (codes "accept-ranges") (codes "bytes") r)

  abbrev pub file_response :
      Bytes
      → ℕ
      → List (Option Bytes)
      → Option ((ℕ × ℕ) × List (Option Bytes))
      → HttpResponse H
      → HttpResponse H
  file_response mime file_len reads none r = full_response mime file_len reads r
  file_response mime file_len reads (some part) r = partial_response mime file_len part r

  -- `serve_file`, once the length is known
  unfoldable pub serve_range : Bytes → File → ℕ → HttpCall H → HttpResponse H × HttpCall H
  unfolding header asked_range full_response partial_response response mime_from_path take_reads
  serve_range path file file_len call =
      let part = seek_range file (asked_range (header (codes "range") call) file_len) in
      let (r, after) = response call in
      (file_response (mime_from_path path) file_len file.reads part r, after)

  abbrev serve_open : Bytes → Option File → HttpCall H → HttpResponse H × HttpCall H
  serve_open path none call = answer_empty not_found call
  serve_open path (some file) call = elim file.len [
    | none ↦ answer_empty internal_server_error call
    | some file_len ↦ serve_range path file file_len call
  ]

  -- The response that `serve_file` sends
  unfoldable pub serve_file : FileSystem → Bytes → HttpCall H → HttpResponse H × HttpCall H
  unfolding answer_empty serve_range
  serve_file fs path call = serve_open path (fs.open_file path) call

  unfoldable pub serve_index :
      FileSystem → Bytes → Option Bytes → HttpCall H → HttpResponse H × HttpCall H
  unfolding join serve_file answer_empty
  serve_index fs base none call = answer_empty forbidden call
  serve_index fs base (some idx) call =
      if fs.exists (join base idx)
      then serve_file fs (join base idx) call
      else answer_empty not_found call

  -- `tail`, without the slashes in front
  unfoldable pub tail_of : HttpCall H → Bytes
  unfolding path_param trim_start_by
  tail_of call = elim (path_param (codes "__path__") call) [
    | none ↦ []
    | some tail ↦ trim_start_by (λ c. c == b'/') tail
  ]

  -- From the canonical paths of the directory and of the file
  unfoldable pub serve_canonical :
      FileSystem
      → StaticFileOptions
      → Option Bytes
      → Option Bytes
      → HttpCall H
      → HttpResponse H × HttpCall H
  unfolding is_under serve_index serve_file answer_empty
  serve_canonical fs opts none req call = answer_empty internal_server_error call
  serve_canonical fs opts (some base) none call = serve_index fs opts.dir opts.index call
  serve_canonical fs opts (some base) (some req) call =
      if not (is_under base req)
      then answer_empty forbidden call
      else if fs.is_dir req
      then serve_index fs opts.dir opts.index call
      else serve_file fs req call

  -- The response that `serve_static` sends
  unfoldable pub static_response :
      FileSystem → StaticFileOptions → HttpCall H → HttpResponse H × HttpCall H
  unfolding tail_of join serve_index serve_canonical
  static_response fs opts call =
      let tail = tail_of call in
      if is_empty tail
      then serve_index fs opts.dir opts.index call
      else serve_canonical fs opts (fs.canonicalize opts.dir) (fs.canonicalize (join opts.dir tail))
          call

  unfoldable pub serve_static : Clock → FileSystem → StaticFileOptions → HttpCall H → HttpCall H
  unfolding static_response
  serve_static clock fs opts call =
      let (r, after) = static_response fs opts call in send_on clock r after
