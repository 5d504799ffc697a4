-- ===== src/StaticFiles/Tests.antt =====
-- Requests for files of src/static_files.rs.
use mhttp.Common.{
  ℕ, ◌≡◌, refl, ap, sym, true, false, Option, none, some, [], ◌∷◌, Bytes, codes, drop, append-nil,
  arith, if◌then◌else◌, trim_start_by, bytes_eq, eq_ignore_ascii_case, split, starts_with,
  ends_with,
}
use mathlib.Core.Path.{subst}
use mhttp.Common.Decimal.{to_decimal}
use mhttp.Method
use mhttp.FieldLines.Fields
use mhttp.Request.{make_request, v4}
use mhttp.Connection.{new_connection}
use mhttp.Connection.Writing.{copied}
use mhttp.Call.{HttpCall, new_call, header, path_param, first_param}
use mhttp.Server.Tests.{clock}
use mhttp.StaticFiles.{
  File, FileSystem, StaticFileOptions, tail_of, static_response, serve_file, serve_static,
  mime_from_path, mime_in,
}
use mhttp.StaticFiles.Paths.{join, components, names, is_under, Under, Under-is_under, extension}
use mhttp.StaticFiles.Confined.{with_files, serve_static-Confined}
use mhttp.StaticFiles.Ranges.{Holds, range_text}
use mhttp.StaticFiles.Served.{IsSent, IsPart, serve_file-IsPart, static_response-IsSent}

abbrev hello_file : File
hello_file = record {
  len = some 5;
  reads = some (codes "hel") ∷ some (codes "lo") ∷ [];
  seek = λ start. some (some (drop start (codes "hello")) ∷ []);
}

copied_one : (s : Bytes) → copied (some s ∷ []) ≡ (true, s)
unfolding copied
copied_one [] = refl
copied_one (c ∷ s) = ap (λ t. (true, t)) (append-nil (c ∷ s))

hello-Holds : Holds hello_file (codes "hello")
unfolding copied
hello-Holds = record {
  len = refl;
  whole = refl;
  seeks = λ start within.
      (some (drop start (codes "hello")) ∷ [], refl, copied_one (drop start (codes "hello")));
}

abbrev disk : FileSystem
disk = record {
  canonicalize = λ path. some path;
  is_dir = λ path. false;
  exists = λ path. true;
  open_file = λ path. some hello_file;
}

abbrev www : StaticFileOptions
www = record { dir = codes "/www"; index = none }

abbrev asks_file : HttpCall ℕ
asks_file =
    let request = make_request (Method.get, codes "/a.txt", codes "HTTP/1.1") [] (v4 1) 100 in
    new_call (new_connection false [])
      (record request {
        path_params = (codes "__path__", codes "/a.txt") ∷ [];
        field_lines = (codes "range", codes "bytes=-3") ∷ [];
      })
      (codes "id")

file-Under : Under (codes "/www") (codes "/www/a.txt")
unfolding components names split starts_with bytes_eq
file-Under = (codes "a.txt" ∷ [], refl)

static_response-IsSent_example : IsSent (codes "hello") (static_response disk www asks_file).0
unfolding tail_of trim_start_by new_call path_param first_param bytes_eq join starts_with ends_with
static_response-IsSent_example =
    static_response-IsSent disk www asks_file (codes "/www") (codes "/www/a.txt") (codes "hello")
      hello_file refl refl refl file-Under refl refl hello-Holds

-- The last three bytes are asked for, and the first four are sent.
serve_file-IsPart_example :
    IsPart (codes "hello") 0 3 (serve_file disk (codes "/www/a.txt") asks_file).0
unfolding new_call header Fields.get eq_ignore_ascii_case bytes_eq range_text to_decimal
serve_file-IsPart_example =
    serve_file-IsPart disk (codes "/www/a.txt") hello_file (codes "hello") none (some 3) asks_file
      refl hello-Holds refl tt (omega arith) (omega arith) (omega arith)

-- The files below `/www` and nothing else
abbrev below : Bytes → Option File
below path = if is_under (codes "/www") path then some hello_file else none

below_same : (path : Bytes) → Under (codes "/www") path → below path ≡ some hello_file
below_same path under = rw (Under-is_under (codes "/www") path under) refl

serve_static-Confined_example :
    serve_static clock (with_files below disk) www asks_file ≡ serve_static clock disk www asks_file
serve_static-Confined_example =
    serve_static-Confined clock disk below www asks_file
      (λ base path dir under.
        let same : codes "/www" ≡ base = cc in
        below_same path (subst (λ b. Under b path) (sym same) under))
      (λ idx none_given. absurd (cc))

mime_test : mime_from_path (codes "/www/a.b.html") ≡ codes "text/html; charset=utf-8"
unfolding mime_from_path extension mime_in
mime_test = refl
