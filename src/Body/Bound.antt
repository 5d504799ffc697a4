-- ===== src/Body/Bound.antt =====
-- `Body::read_chunked` (src/body.rs) ends, and keeps to the limit on the size of a body.
use mhttp.Common.{
  ℕ, zero, suc, ◌+◌, ◌%◌, ◌≤◌, ◌<◌, ◌≡◌, ◌≢◌, sym, Bool, true, false, [], Bytes, if◌then◌else◌,
  ◌==◌, length, arith, ltb, length-append,
}
use mhttp.Input.{no_fuel, too_large, Input, Result, ok, err, read_line}
use mhttp.Input.Reads.{whole}
use mhttp.Body.{
  usize_mod, chunk_size_of, take_exact, expect_crlf, last_chunk, next_chunk, read_chunk_of,
  read_chunk, read_chunks, read_chunked, skip_line,
}
use mhttp.Body.Allowed.{
  Allowed, Allowed-bind, Allowed-if, left, Cut, Any, skip_line-Allowed, Exact, take_exact-Allowed,
  line_whole, size-Allowed, expect_crlf-Allowed,
}

abbrev Step : ℕ → ℕ → Bool × Bytes × Input → Type 0
Step max total (true, body, d) = length body ≤ max
Step max total (false, body, d) = (length body ≤ max) × (length body + left d < total)

last_chunk-Allowed :
    (max total : ℕ) (body : Bytes) (c : Input)
    → length body ≤ max
    → Allowed (Step max total) (last_chunk body c)
unfolding last_chunk Allowed
last_chunk-Allowed max total body c small =
    Allowed-bind Any (Step max total) (skip_line c.reader c.incoming) _
      (skip_line-Allowed c.reader c.incoming) (λ d _. small)

next_chunk-Allowed :
    (max total n : ℕ) (body : Bytes) (c : Input)
    → n ≢ 0
    → total < usize_mod
    → length body + left c < total
    → ltb max ((length body + n) % usize_mod) ≡ false
    → Allowed (Step max total) (next_chunk n body c)
unfolding next_chunk Allowed
next_chunk-Allowed max total n body c nonzero small room test =
    Allowed-bind (Exact n (left c)) (Step max total) (take_exact n c) _ (take_exact-Allowed n c)
      (λ (s, d) (short, size).
        Allowed-bind (λ d'. left d' ≤ left d) (Step max total) (expect_crlf d) _
          (expect_crlf-Allowed d)
          (λ d' le.
            let grown = length-append body s in
            let all : length body + n ≤ max = ground arith in (omega arith, omega arith)))

read_chunk-Allowed :
    (max : ℕ) (body : Bytes) (c : Input)
    → length body ≤ max
    → length body + left c < usize_mod
    → Allowed (Step max (length body + left c)) (read_chunk max body c)
unfolding read_chunk read_chunk_of Allowed
read_chunk-Allowed max body c kept small =
    let total = length body + left c in
    Allowed-bind (Cut (left c)) (Step max total) (read_line c.reader c.incoming) _ (line_whole c)
      (λ (l, d) lt.
        Allowed-bind (λ _. Unit {0}) (Step max total) (chunk_size_of l) _ (size-Allowed l)
          (λ n _.
            Allowed-if (Step max total) (n == 0) _ _ (λ e. last_chunk-Allowed max total body d kept)
              (λ nonzero.
                Allowed-if (Step max total) (ltb max ((length body + n) % usize_mod))
                  (err too_large) _ (λ e k. cc)
                  (λ test.
                    next_chunk-Allowed max total n body d (ground arith) small (omega arith)
                      test))))

by_done :
    (max total : ℕ) (done : Bool) (b : Bytes) (d : Input) (r : Result (Bytes × Input))
    → Step max total (done, b, d)
    → (length b ≤ max → length b + left d < total → Allowed (λ (b, d). length b ≤ max) r)
    → Allowed (λ (b, d). length b ≤ max) (if done then ok (b, d) else r)
unfolding Allowed
by_done max total true b d r small f = small
by_done max total false b d r (kept, less) f = f kept less

read_chunks-Allowed :
    (fuel max : ℕ) (body : Bytes) (c : Input)
    → length body ≤ max
    → length body + left c < usize_mod
    → length body + left c < fuel
    → Allowed (λ (b, d). length b ≤ max) (read_chunks fuel max body c)
unfolding read_chunks Allowed
read_chunks-Allowed zero max body c kept small enough = absurd (omega arith)
read_chunks-Allowed (suc fuel) max body c kept small enough =
    Allowed-bind (Step max (length body + left c)) (λ (b, d). length b ≤ max)
      (read_chunk max body c) _ (read_chunk-Allowed max body c kept small)
      (λ (done, b, d) step.
        by_done max (length body + left c) done b d (read_chunks fuel max b d) step
          (λ kept' less. read_chunks-Allowed fuel max b d kept' (omega arith) (omega arith)))

Allowed-inv :
    (max : ℕ) (r : Result (Bytes × Input))
    → Allowed (λ (b, d). length b ≤ max) r
    → (r ≢ err no_fuel) × ((b : Bytes) (d : Input) → r ≡ ok (b, d) → length b ≤ max)
unfolding Allowed
Allowed-inv max (ok (b, d)) h =
    (λ e. absurd (cc), λ b' d' e. let same : b ≡ b' = cc in rw (sym same) h)
Allowed-inv max (err e) h = (λ k. h (cc), λ b d k. absurd (cc))

-- Where less than 2^64 bytes arrive, the loop of `read_chunked` ends within its fuel, whatever
-- arrives and however it is cut, and a body that it returns is no longer than the limit.
pub read_chunked-Allowed :
    (max : ℕ) (c : Input)
    → length (whole c) < usize_mod
    → (read_chunked max c ≢ err no_fuel)
      × ((b : Bytes) (d : Input) → read_chunked max c ≡ ok (b, d) → length b ≤ max)
unfolding read_chunked left
read_chunked-Allowed max c small = Allowed-inv max (read_chunked max c) (
    read_chunks-Allowed (suc (length (whole c))) max [] c (omega arith) (omega arith) (omega arith))
