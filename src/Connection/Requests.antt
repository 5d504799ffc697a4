-- ===== src/Connection/Requests.antt =====
-- What `read_request` of src/connection.rs gives: the request whose head arrives, whatever the cuts
-- between the reads, and never a panic.
use mhttp.Common.{
  ℕ, ◌+◌, ◌*◌, ◌≤◌, ◌≡◌, refl, sym, ap, ◌∙◌, Bool, true, false, Option, none, some, List, [], ◌∷◌,
  ◌++◌, Bytes, ltb, if◌then◌else◌, length, arith, length-append, length-take, Bool-cases, inl, inr,
}
use native.Mathlib.Nat.{mul-le-mul_left, mul-le-mul_right}
use mhttp.Input.{Event, received, failed, silent}
use mhttp.Input.Reads.{arriving, whole}
use mhttp.FieldLines.Fields.{Fields}
use mhttp.Method.{HttpMethod}
use mhttp.Request.{
  Outcome, ok, err, panic, RequestError, payload_too_large, HttpRequest, IpAddr, parse,
  make_request,
}
use mhttp.Request.Parsing.{
  InLimit, parse-InLimit, request_head, IsWritable, announced, parse-request_head,
}
use mhttp.Connection.{
  Writer, Connection, flush, Taken, input_of, max_header_len, cut_head, head_end, read_head,
  first_read, some_request, with_head, after_first, read_request,
}
use mhttp.Connection.Reading.{Prompt, IsHead, HeadTaken, read_head_lem}

-- The most that one read is assumed to deliver
abbrev pub max_read_len : ℕ
max_read_len = 16 * 1024

abbrev pub max_reader_len : ℕ
max_reader_len = max_header_len + max_read_len

-- No read delivers more.
abbrev pub Small : List Event → Type 0
Small [] = Unit
Small (received b ∷ events) = (length b ≤ max_read_len) × Small events
Small (failed ∷ events) = Small events
Small (silent ∷ events) = Small events

-- A head that is cut off is not longer than the reader may become.
abbrev Fits : Taken → Type 0
Fits (ok head, _, _) = length head ≤ max_reader_len
Fits (err e, _, _) = Unit
Fits (panic, _, _) = ⊥

cut_head-Fits :
    (o : Option ℕ) (w : Writer) (reader : Bytes) (events : List Event) (more : Taken)
    → length reader ≤ max_reader_len
    → (ltb max_header_len (length reader) ≡ false → Fits more)
    → Fits (cut_head o w reader events more)
unfolding cut_head
cut_head-Fits (some pos) w reader events more short f = omega (arith, length-take (pos + 4) reader)
cut_head-Fits none w reader events more short f =
    elim (Bool-cases (ltb max_header_len (length reader))) [
      | inl e ↦ rw e tt
      | inr e ↦ elim (Bool-cases w.broken) [ inl b ↦ simp (e, b) tt | inr b ↦ simp (e, b) (f e) ]
    ]

read_head-Fits :
    (w : Writer) (reader : Bytes) (events : List Event)
    → length reader ≤ max_reader_len
    → Small events
    → Fits (read_head w reader events)
unfolding read_head
read_head-Fits w reader [] short small =
    cut_head-Fits (head_end reader) w reader [] _ short (λ _. tt)
read_head-Fits w reader (silent ∷ events) short small =
    cut_head-Fits (head_end reader) w reader (silent ∷ events) _ short (λ _. tt)
read_head-Fits w reader (failed ∷ events) short small =
    cut_head-Fits (head_end reader) w reader (failed ∷ events) _ short (λ _. tt)
read_head-Fits w reader (received [] ∷ events) short small =
    cut_head-Fits (head_end reader) w reader (received [] ∷ events) _ short (λ _. tt)
read_head-Fits w reader (received (b ∷ s) ∷ events) short (fits, small) =
    cut_head-Fits (head_end reader) w reader (received (b ∷ s) ∷ events)
      (read_head (flush w) (reader ++ b ∷ s) events) short
      (λ e.
        read_head-Fits (flush w) (reader ++ b ∷ s) events
          (ground (arith, e, length-append reader (b ∷ s))) small)

-- What reading a request may give: the end of the connection, an error, or a request that announces
-- a body within the limit, but no panic.
abbrev pub Sound : ℕ → Outcome (Option HttpRequest) → Type 0
Sound limit (ok none) = Unit
Sound limit (ok (some r)) = InLimit limit (ok r)
Sound limit (err e) = Unit
Sound limit panic = ⊥

parsed-Sound :
    (o : Outcome HttpRequest) (limit : ℕ) → InLimit limit o → Sound limit (some_request o)
parsed-Sound (ok r) limit h = h
parsed-Sound (err e) limit h = tt
parsed-Sound panic limit h = h

with_head-Sound :
    (peer : IpAddr) (limit : ℕ) (c : Connection) (t : Taken)
    → Fits t
    → Sound limit (with_head peer limit c t).0
with_head-Sound peer limit c (ok head, w, i) fits = parsed-Sound (parse head peer limit) limit (
    parse-InLimit head peer limit
      (omega (arith, mul-le-mul_left (length head) fits, mul-le-mul_right max_reader_len fits)))
with_head-Sound peer limit c (err e, w, i) fits = tt
with_head-Sound peer limit c (panic, w, i) fits = fits

read-Sound :
    (peer : IpAddr) (limit : ℕ) (c : Connection) (w : Writer) (reader : Bytes) (events : List Event)
    → length reader ≤ max_reader_len
    → Small events
    → Sound limit (with_head peer limit c (read_head w reader events)).0
read-Sound peer limit c w reader events short small =
    with_head-Sound peer limit c (read_head w reader events)
      (read_head-Fits w reader events short small)

first_read-received :
    (w : Writer) (x : ℕ) (s : Bytes) (events : List Event)
    → w.broken ≡ false
    → first_read w [] (received (x ∷ s) ∷ events) ≡ (ok (some (input_of (x ∷ s) events)), flush w)
unfolding first_read
first_read-received w x s events b = rw b refl

first_read-Sound :
    (peer : IpAddr) (limit : ℕ) (c : Connection) (w : Writer) (broken : Bool)
    → w.broken ≡ broken
    → (reader : Bytes) (events : List Event) → length reader ≤ max_reader_len
    → Small events
    → Sound limit (after_first peer limit c (first_read w reader events)).0
unfolding first_read
first_read-Sound peer limit c w broken b (x ∷ reader) events short small =
    read-Sound peer limit c w (x ∷ reader) events short small
first_read-Sound peer limit c w true b [] events short small = simp b tt
first_read-Sound peer limit c w false b [] [] short small = simp b tt
first_read-Sound peer limit c w false b [] (silent ∷ events) short small = simp b tt
first_read-Sound peer limit c w false b [] (failed ∷ events) short small = simp b tt
first_read-Sound peer limit c w false b [] (received [] ∷ events) short small = simp b tt
first_read-Sound peer limit c w false b [] (received (x ∷ s) ∷ events) short (fits, small) =
    rw (first_read-received w x s events b)
      (read-Sound peer limit c (flush w) (x ∷ s) events (omega (arith, fits)) small)

-- If no read delivers more than 16 KiB, and no more than 80 KiB are in the reader, then reading a request does not
-- panic: it gives the end of the connection, an error, or a request that announces a body within
-- the limit.
pub read_request-Sound :
    (peer : IpAddr) (max_body_size : ℕ) (c : Connection)
    → length c.input.reader ≤ max_reader_len
    → Small c.input.incoming
    → Sound max_body_size (read_request peer max_body_size c).0
unfolding read_request
read_request-Sound peer limit c short small =
    first_read-Sound peer limit (record c { has_written_response = false }) c.writer c.writer.broken
      refl c.input.reader c.input.incoming short small

-- A written request head that is taken off the input is parsed.
abbrev pub Asked :
    IpAddr
    → ℕ
    → HttpMethod
    → Bytes
    → Bytes
    → Fields
    → Bytes
    → Outcome (Option HttpRequest) × Connection
    → Type 0
Asked peer limit m route version fs rest (o, d) =
    (o ≡ (
      if ltb limit (announced fs)
      then err payload_too_large
      else ok (some (make_request (m, route, version) fs peer limit))))
    × (whole d.input ≡ rest)
    × Prompt d.input.incoming

some_request-if :
    (b : Bool) (e : RequestError) (r : HttpRequest)
    → some_request (if b then err e else ok r) ≡ (if b then err e else ok (some r))
some_request-if true e r = refl
some_request-if false e r = refl

with_head-Asked :
    (peer : IpAddr) (limit : ℕ) (c : Connection) (w : Writer) (reader : Bytes) (events : List Event)
    (m : HttpMethod) (route version : Bytes) (fs : Fields) (rest : Bytes)
    → IsWritable route version fs
    → HeadTaken w reader events (request_head m route version fs) rest
    → Asked peer limit m route version fs rest (with_head peer limit c (read_head w reader events))
with_head-Asked peer limit c w reader events m route version fs rest writable
      (v, d, ran, left, more) =
    let parsed = parse-request_head m route version fs peer limit writable in
    rw ran (ap some_request parsed ∙ some_request-if (ltb limit (announced fs)) _ _, left, more)

first_read-Asked :
    (peer : IpAddr) (limit : ℕ) (c : Connection) (w : Writer) (reader : Bytes) (events : List Event)
    (m : HttpMethod) (route version : Bytes) (fs : Fields) (rest : Bytes)
    → w.broken ≡ false
    → Prompt events
    → IsWritable route version fs
    → IsHead (request_head m route version fs)
    → reader ++ arriving events ≡ request_head m route version fs ++ rest
    → Asked peer limit m route version fs rest
        (after_first peer limit c (first_read w reader events))
unfolding arriving Prompt
first_read-Asked peer limit c w (x ∷ reader) events m route version fs rest sound prompt writable
      head e =
    unfold first_read in
    with_head-Asked peer limit c w (x ∷ reader) events m route version fs rest writable (
      read_head_lem w (x ∷ reader) events (request_head m route version fs) rest sound head prompt
        e)
first_read-Asked peer limit c w [] [] m route version fs rest sound prompt writable head e =
    let total : length (request_head m route version fs ++ rest) ≡ 0 = ap length (sym e) in
    absurd (omega (arith, length-append (request_head m route version fs) rest, head.all))
first_read-Asked peer limit c w [] (silent ∷ events) m route version fs rest sound prompt writable
      head e =
    absurd prompt
first_read-Asked peer limit c w [] (failed ∷ events) m route version fs rest sound prompt writable
      head e =
    absurd prompt
first_read-Asked peer limit c w [] (received [] ∷ events) m route version fs rest sound prompt
      writable head e =
    absurd prompt
first_read-Asked peer limit c w [] (received (x ∷ s) ∷ events) m route version fs rest sound prompt
      writable head e =
    rw (first_read-received w x s events sound) (
      with_head-Asked peer limit c (flush w) (x ∷ s) events m route version fs rest writable (
        read_head_lem (flush w) (x ∷ s) events (request_head m route version fs) rest
          (unfold flush in sound) head prompt e))

-- However the bytes of a written request head arrive, in time and by a sound transport, the request is
-- read that it was written from, or, if it announces a body longer than the limit, the error for a payload too
-- large is given; the bytes behind the head are left for the next read.
pub read_request-request_head :
    (peer : IpAddr) (max_body_size : ℕ) (c : Connection) (m : HttpMethod) (route version : Bytes)
    (fs : Fields) (rest : Bytes)
    → c.writer.broken ≡ false
    → Prompt c.input.incoming
    → IsWritable route version fs
    → IsHead (request_head m route version fs)
    → whole c.input ≡ request_head m route version fs ++ rest
    → Asked peer max_body_size m route version fs rest (read_request peer max_body_size c)
unfolding read_request whole
read_request-request_head peer limit c m route version fs rest sound prompt writable head e =
    first_read-Asked peer limit (record c { has_written_response = false }) c.writer c.input.reader
      c.input.incoming m route version fs rest sound prompt writable head e
