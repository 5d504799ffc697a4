-- ===== src/Input.antt =====
-- What a connection receives (src/connection.rs, src/body.rs): the bytes in `reader`, and the reads
-- that the transport will answer, in order. The transport is not part of the source; its answers are
-- a list of events, and a list at its end is a closed stream.
pub mod Reads
use mhttp.Common.{
  ℕ, zero, suc, ◌+◌, Bool, true, false, Option, none, some, List, [], ◌∷◌, ◌++◌, Bytes, ltb, leb,
  if◌then◌else◌, length, take, drop, memchr, is_empty,
}

pub data Event : Type 0 where
  -- a read appends these bytes; none of them means the end of the stream
  received : Bytes → Event
  -- a read fails
  failed : Event
  -- nothing arrives for longer than any timeout
  silent : Event

pub record Input : Type 0 where
  pub reader : Bytes
  pub incoming : List Event

-- The messages of the errors in src/body.rs, and that of `HttpCall::body`
pub data BodyError : Type 0 where
  too_large : BodyError
  closed : BodyError
  io : BodyError
  invalid_line : BodyError
  invalid_size : BodyError
  missing_crlf : BodyError
  already_read : BodyError
  -- no message: the fuel of the model has run out
  no_fuel : BodyError

pub data Result {ℓ} (A : Type ℓ) : Type ℓ where
  ok : A → Result A
  err : BodyError → Result A

infixl 5 ◌>>=◌
abbrev pub ◌>>=◌ {ℓ κ} : {A : Type ℓ} {B : Type κ} → Result A → (A → Result B) → Result B
ok a >>= f = f a
err e >>= f = err e

-- `while conn.reader.len() < n { … read_buf … }`: a silence is waited out, since no timeout stands here
unfoldable pub fill : ℕ → Bytes → List Event → Result Input
fill n reader [] =
    if ltb (length reader) n then err closed else ok (record { reader = reader; incoming = [] })
fill n reader (silent ∷ events) =
    let rest = fill n reader events in
    if ltb (length reader) n
    then rest
    else ok (record { reader = reader; incoming = silent ∷ events })
fill n reader (failed ∷ events) =
    if ltb (length reader) n
    then err io
    else ok (record { reader = reader; incoming = failed ∷ events })
fill n reader (received b ∷ events) =
    let rest = if is_empty b then err closed else fill n (reader ++ b) events in
    if ltb (length reader) n
    then rest
    else ok (record { reader = reader; incoming = received b ∷ events })

-- What is left of the input after a cut of `n` bytes: `conn.reader.split_to(n)`
abbrev pub split_to : ℕ → Input → Bytes × Input
split_to n c = (take n c.reader, record { reader = drop n c.reader; incoming = c.incoming })

-- A line with its newline is cut off at `pos`, where there is one; if not, there is more to read.
unfoldable pub cut_line :
    Option ℕ → Bytes → List Event → Result (Bytes × Input) → Result (Bytes × Input)
cut_line (some pos) reader events more =
    ok (split_to (pos + 1) (record { reader = reader; incoming = events }))
cut_line none reader events more = more

-- `loop { if let Some(pos) = memchr(b'\n', &conn.reader) { … split_to(pos + 1) … } … read_buf … }`
unfoldable pub read_line : Bytes → List Event → Result (Bytes × Input)
unfolding cut_line memchr
read_line reader [] = cut_line (memchr b'\n' reader) reader [] (err closed)
read_line reader (silent ∷ events) =
    cut_line (memchr b'\n' reader) reader (silent ∷ events) (read_line reader events)
read_line reader (failed ∷ events) =
    cut_line (memchr b'\n' reader) reader (failed ∷ events) (err io)
read_line reader (received b ∷ events) =
    let rest = if is_empty b then err closed else read_line (reader ++ b) events in
    cut_line (memchr b'\n' reader) reader (received b ∷ events) rest
