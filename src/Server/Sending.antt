-- ===== src/Server/Sending.antt =====
-- Reading requests and sending responses (src/connection.rs, src/server.rs) leave a sound transport sound, and
-- sending leaves the input alone.
use mhttp.Common.{
  ℕ, ◌≡◌, refl, ◌∙◌, Bool, true, false, ◌&&◌, not, Option, none, some, List, [], ◌∷◌, ◌++◌, Bytes,
  arith, Bool-cases, inl, inr,
}
use mhttp.Input.{Event, received, failed, silent}
use mhttp.FieldLines.Fields.{Fields}
use mhttp.Request.{IpAddr}
use mhttp.Response.{HttpResponse, Body}
use mhttp.Connection.{
  Writer, Connection, flush, after_first, write_all, read_request, read_head, cut_head, head_end,
  first_read, Taken,
}
use mhttp.Connection.Writing.{
  write_response, write_body, body_or_none, then_flush, flush_if_idle, status_forbids_body,
}
use mhttp.Connection.Sent.{all_written, flush-written}
use mhttp.Common.{ltb, length}
use mhttp.Connection.{max_header_len}
use mhttp.Server.{Clock, send}

-- Writing does not change whether the transport is broken.
write_body-broken :
    (b : Option Body) (fs : Fields) (w : Writer) → (write_body b fs w).1.broken ≡ w.broken
unfolding write_body write_all flush
write_body-broken none fs w = refl
write_body-broken (some (Body.bytes s t)) fs w = ground arith
write_body-broken (some (Body.stream reads n t)) fs w = ground arith

then_flush-broken :
    (reader : Bytes) (p : Bool × Writer) → (then_flush reader p).1.broken ≡ p.1.broken
unfolding flush_if_idle flush
then_flush-broken reader (false, w) = refl
then_flush-broken [] (true, w) = ground arith
then_flush-broken (c ∷ reader) (true, w) = refl

module _ {H : Type 0} where
  body_or_none-broken : (r : HttpResponse H) (w : Writer) → (body_or_none r w).1.broken ≡ w.broken
  body_or_none-broken r w =
      elim (Bool-cases (not r.suppress_body && not (status_forbids_body r.status_code))) [
        | inl e ↦ rw e (write_body-broken r.body r.field_lines w)
        | inr e ↦ rw e refl
      ]

  pub send-broken :
      (clock : Clock) (r : HttpResponse H) (c : Connection)
      → (send clock r c).writer.broken ≡ c.writer.broken
  unfolding send write_response write_all
  send-broken clock r c = then_flush-broken c.input.reader _ ∙ body_or_none-broken r _

  pub send-input :
      (clock : Clock) (r : HttpResponse H) (c : Connection) → (send clock r c).input ≡ c.input
  unfolding send write_response
  send-input clock r c = refl

-- Nor does reading.
cut_head-broken :
    (o : Option ℕ) (w : Writer) (reader : Bytes) (events : List Event) (more : Taken)
    → more.1.broken ≡ w.broken
    → (cut_head o w reader events more).1.broken ≡ w.broken
unfolding cut_head
cut_head-broken (some pos) w reader events more h = refl
cut_head-broken none w reader events more h = ground (arith, h)

read_head-broken :
    (w : Writer) (reader : Bytes) (events : List Event)
    → (read_head w reader events).1.broken ≡ w.broken
unfolding read_head flush
read_head-broken w reader [] = cut_head-broken (head_end reader) w reader [] _ refl
read_head-broken w reader (silent ∷ events) =
    cut_head-broken (head_end reader) w reader (silent ∷ events) _ refl
read_head-broken w reader (failed ∷ events) =
    cut_head-broken (head_end reader) w reader (failed ∷ events) _ refl
read_head-broken w reader (received [] ∷ events) =
    cut_head-broken (head_end reader) w reader (received [] ∷ events) _ refl
read_head-broken w reader (received (b ∷ s) ∷ events) =
    cut_head-broken (head_end reader) w reader (received (b ∷ s) ∷ events)
      (read_head (flush w) (reader ++ b ∷ s) events)
      (read_head-broken (flush w) (reader ++ b ∷ s) events)

first_read-broken :
    (peer : IpAddr) (limit : ℕ) (c : Connection) (w : Writer) (reader : Bytes) (events : List Event)
    → w.broken ≡ false
    → (after_first peer limit c (first_read w reader events)).1.writer.broken ≡ false
unfolding first_read flush
first_read-broken peer limit c w (x ∷ reader) events sound =
    read_head-broken w (x ∷ reader) events ∙ sound
first_read-broken peer limit c w [] [] sound = rw sound refl
first_read-broken peer limit c w [] (silent ∷ events) sound = rw sound refl
first_read-broken peer limit c w [] (failed ∷ events) sound = rw sound refl
first_read-broken peer limit c w [] (received [] ∷ events) sound = rw sound refl
first_read-broken peer limit c w [] (received (x ∷ s) ∷ events) sound =
    rw sound (read_head-broken _ (x ∷ s) events)

pub read_request-broken :
    (peer : IpAddr) (limit : ℕ) (c : Connection)
    → c.writer.broken ≡ false
    → (read_request peer limit c).1.writer.broken ≡ false
unfolding read_request
read_request-broken peer limit c sound =
    first_read-broken peer limit (record c { has_written_response = false }) c.writer c.input.reader
      c.input.incoming sound

-- Reading a request writes nothing: what waits is flushed.
cut_head-written :
    (o : Option ℕ) (w : Writer) (reader : Bytes) (events : List Event) (more : Taken)
    → all_written more.1 ≡ all_written w
    → all_written (cut_head o w reader events more).1 ≡ all_written w
unfolding cut_head
cut_head-written (some pos) w reader events more h = refl
cut_head-written none w reader events more h =
    elim (Bool-cases (ltb max_header_len (length reader))) [
      | inl e ↦ rw e refl
      | inr e ↦ elim (Bool-cases w.broken) [ inl f ↦ rw (e, f) refl | inr f ↦ rw (e, f) h ]
    ]

read_head-written :
    (w : Writer) (reader : Bytes) (events : List Event)
    → all_written (read_head w reader events).1 ≡ all_written w
unfolding read_head
read_head-written w reader [] = cut_head-written (head_end reader) w reader [] _ (flush-written w)
read_head-written w reader (silent ∷ events) =
    cut_head-written (head_end reader) w reader (silent ∷ events) _ (flush-written w)
read_head-written w reader (failed ∷ events) =
    cut_head-written (head_end reader) w reader (failed ∷ events) _ (flush-written w)
read_head-written w reader (received [] ∷ events) =
    cut_head-written (head_end reader) w reader (received [] ∷ events) _ (flush-written w)
read_head-written w reader (received (b ∷ s) ∷ events) =
    cut_head-written (head_end reader) w reader (received (b ∷ s) ∷ events)
      (read_head (flush w) (reader ++ b ∷ s) events)
      (read_head-written (flush w) (reader ++ b ∷ s) events ∙ flush-written w)

first_read-written :
    (peer : IpAddr) (limit : ℕ) (c : Connection) (w : Writer) (reader : Bytes) (events : List Event)
    → w.broken ≡ false
    → all_written (after_first peer limit c (first_read w reader events)).1.writer ≡ all_written w
unfolding first_read flush
first_read-written peer limit c w (x ∷ reader) events sound =
    read_head-written w (x ∷ reader) events
first_read-written peer limit c w [] [] sound = rw sound (flush-written w)
first_read-written peer limit c w [] (silent ∷ events) sound = rw sound (flush-written w)
first_read-written peer limit c w [] (failed ∷ events) sound = rw sound (flush-written w)
first_read-written peer limit c w [] (received [] ∷ events) sound = rw sound (flush-written w)
first_read-written peer limit c w [] (received (x ∷ s) ∷ events) sound =
    rw sound
      (read_head-written (record (flush w) { broken = false }) (x ∷ s) events ∙ flush-written w)

pub read_request-written :
    (peer : IpAddr) (limit : ℕ) (c : Connection)
    → c.writer.broken ≡ false
    → all_written (read_request peer limit c).1.writer ≡ all_written c.writer
unfolding read_request
read_request-written peer limit c sound =
    first_read-written peer limit (record c { has_written_response = false }) c.writer
      c.input.reader c.input.incoming sound
