-- ===== src/Request/Lines.antt =====
-- The request line, written and read back (src/request.rs).
use mhttp.Common.{
  ◌+◌, ◌-◌, ◌≡◌, refl, ap, ◌∙◌, true, ◌∷◌, ◌++◌, Bytes, codes, length, drop, memchr_first, arith,
  Lacks, All-append, length-append, take-append, drop_past, drop-sum,
}
use mhttp.Common.Utf8.{is_utf8}
use mhttp.Method.{HttpMethod, to_string, from_str, get}
use mhttp.FieldLines.RoundTrip.{ends_with-append}
use mhttp.Request.{ok, parse_line, cut_cr, text_or_empty, method_or_get}

unfoldable pub request_line : HttpMethod → Bytes → Bytes → Bytes
request_line m route version = to_string m ++ (b' ' ∷ (route ++ (b' ' ∷ version)))

method_text :
    (m : HttpMethod)
    → Lacks b' ' (to_string m)
      × Lacks b'\n' (to_string m)
      × (method_or_get (from_str (text_or_empty (to_string m))) ≡ m)
unfolding to_string from_str text_or_empty
method_text get = (omega arith, omega arith, refl)
method_text _ = (omega arith, omega arith, refl)

pub parse_line_lem :
    (m : HttpMethod) (route version : Bytes)
    → Lacks b' ' route
    → is_utf8 route ≡ true
    → parse_line (request_line m route version) ≡ ok (m, route, version)
unfolding parse_line request_line
parse_line_lem m route version no_space text =
    let (spaces, _, method) = method_text m in
    let rest : Bytes = route ++ (b' ' ∷ version) in
    let first = memchr_first b' ' (to_string m) rest spaces in
    let second = memchr_first b' ' route version no_space in
    let past = drop_past (to_string m) b' ' rest in
    let name = take-append (to_string m) (b' ' ∷ rest) in
    let target = take-append route (b' ' ∷ version) in
    let sum : drop (length (to_string m) + 1 + length route + 1) (to_string m ++ (b' ' ∷ rest))
        ≡ version =
      ap (λ k. drop k (to_string m ++ (b' ' ∷ rest))) (omega arith)
      ∙ drop-sum (length (to_string m) + 1) (length route + 1) _
      ∙ ap (drop (length route + 1)) past
      ∙ drop_past route b' ' version in
    let picked : text_or_empty route ≡ route = unfold text_or_empty in rw text refl in
    rw (first, past, second, name, target, method, picked, sum)

pub cut_cr-append : (s : Bytes) → cut_cr (s ++ codes "\r") ≡ s
unfolding cut_cr
cut_cr-append s =
    let n : length (s ++ codes "\r") - 1 ≡ length s = omega (arith, length-append s (codes "\r")) in
    rw (ends_with-append s (codes "\r"), n) (take-append s (codes "\r"))

pub request_line-Lacks :
    (m : HttpMethod) (route version : Bytes)
    → Lacks b'\n' route
    → Lacks b'\n' version
    → Lacks b'\n' (request_line m route version ++ codes "\r")
unfolding request_line
request_line-Lacks m route version h k =
    let (_, line, _) = method_text m in
    All-append _ _ (codes "\r")
      (All-append _ (to_string m) _ line (omega arith, All-append _ route _ h (omega arith, k)))
      (omega arith, tt)
