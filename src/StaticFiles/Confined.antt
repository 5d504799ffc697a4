-- ===== src/StaticFiles/Confined.antt =====
-- Which files `serve_static` of src/static_files.rs can show: the tail of a request may hold `..` and name
-- links, but the file that is opened lies under the directory, or is the index.
use mhttp.Common.{◌≡◌, refl, Option, none, some, Bytes, Bool-cases, inl, inr}
use mhttp.Call.{HttpCall}
use mhttp.Server.{Clock}
use mhttp.StaticFiles.Paths.{join, is_under, Under, is_under-Under}
use mhttp.StaticFiles.{
  File, FileSystem, StaticFileOptions, serve_file, serve_index, serve_canonical, tail_of,
  static_response, serve_static,
}

-- Under the same paths other files
abbrev pub with_files : (Bytes → Option File) → FileSystem → FileSystem
with_files files fs = record fs { open_file = files }

module _ {H : Type 0} (fs : FileSystem) (files : Bytes → Option File) where
  file_same :
      (path : Bytes) (call : HttpCall H)
      → files path ≡ fs.open_file path
      → serve_file (with_files files fs) path call ≡ serve_file fs path call
  unfolding serve_file
  file_same path call same = rw same refl

  index_same :
      (dir : Bytes) (index : Option Bytes) (call : HttpCall H)
      → ((idx : Bytes) → index ≡ some idx → files (join dir idx) ≡ fs.open_file (join dir idx))
      → serve_index (with_files files fs) dir index call ≡ serve_index fs dir index call
  unfolding serve_index
  index_same dir none call same = refl
  index_same dir (some idx) call same = rw (file_same (join dir idx) call (same idx refl)) refl

  canonical_same :
      (opts : StaticFileOptions) (base req : Option Bytes) (call : HttpCall H)
      → ((b path : Bytes) → base ≡ some b → Under b path → files path ≡ fs.open_file path)
      → ((idx : Bytes)
          → opts.index ≡ some idx
          → files (join opts.dir idx) ≡ fs.open_file (join opts.dir idx))
      → serve_canonical (with_files files fs) opts base req call
        ≡ serve_canonical fs opts base req call
  unfolding serve_canonical
  canonical_same opts none req call inside index = refl
  canonical_same opts (some base) none call inside index = index_same opts.dir opts.index call index
  canonical_same opts (some base) (some req) call inside index =
      let indexed = index_same opts.dir opts.index call index in
      elim (Bool-cases (is_under base req)) [
        | inl e ↦
            let same = inside base req refl (is_under-Under base req e) in
            rw (e, indexed, file_same req call same) refl
        | inr e ↦ rw e refl
      ]

  static_same :
      (opts : StaticFileOptions) (call : HttpCall H)
      → ((base path : Bytes)
          → fs.canonicalize opts.dir ≡ some base
          → Under base path
          → files path ≡ fs.open_file path)
      → ((idx : Bytes)
          → opts.index ≡ some idx
          → files (join opts.dir idx) ≡ fs.open_file (join opts.dir idx))
      → static_response (with_files files fs) opts call ≡ static_response fs opts call
  unfolding static_response
  static_same opts call inside index =
      rw
        (
          index_same opts.dir opts.index call index,
          canonical_same opts (fs.canonicalize opts.dir)
              (fs.canonicalize (join opts.dir (tail_of call))) call inside index,
        )
        refl

-- Only files whose canonical path lies under the canonical path of the directory, and the index, can be
-- seen: with other files in every other place, a request leaves the same call with the same bytes
-- written.
pub serve_static-Confined :
    {H : Type 0} (clock : Clock) (fs : FileSystem) (files : Bytes → Option File)
    (opts : StaticFileOptions) (call : HttpCall H)
    → ((base path : Bytes)
        → fs.canonicalize opts.dir ≡ some base
        → Under base path
        → files path ≡ fs.open_file path)
    → ((idx : Bytes)
        → opts.index ≡ some idx
        → files (join opts.dir idx) ≡ fs.open_file (join opts.dir idx))
    → serve_static clock (with_files files fs) opts call ≡ serve_static clock fs opts call
unfolding serve_static
serve_static-Confined clock fs files opts call inside index =
    rw (static_same fs files opts call inside index) refl
