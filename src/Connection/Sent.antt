-- ===== src/Connection/Sent.antt =====
-- The bytes of a response, as fields and a body (src/connection.rs).
use mhttp.Common.{
  ℕ, ◌≡◌, refl, sym, ap, ◌∙◌, Bool, true, false, ◌&&◌, not, Option, none, some, List, [], ◌∷◌, ◌++◌,
  Bytes, codes, if◌then◌else◌, append_assoc, append-nil, Bool-cases, inl, inr,
}
use mhttp.FieldLines.Fields
use mhttp.FieldLines.Fields.{Fields}
use mhttp.Body.{write_chunk, write_terminating_chunk, write_stream}
use mhttp.Body.Trip.{join}
use mhttp.Response.{HttpResponse, Body, bytes, stream}
use mhttp.Response.Status.{to_bytes}
use mhttp.Connection.{Writer, Connection, flush, write_all}
use mhttp.Connection.Writing.{
  DateCache, write_date_header, format_u64, connection_lines, user_lines, is_injected,
  zero_length_line, status_forbids_body, is_none, cookie_lines, is_chunked, copied, streamed,
  write_head, write_body, write_response, flush_if_idle, call_hook, body_or_none, then_flush,
}

-- Everything that was written, in order
abbrev pub all_written : Writer → Bytes
all_written w = w.flushed ++ w.buffered

pub flush-written : (w : Writer) → all_written (flush w) ≡ all_written w
unfolding flush
flush-written w = append-nil (all_written w)

-- The user's fields, but for those that the connection writes itself
pub user_fields : Fields → Fields
user_fields [] = []
user_fields ((name, value) ∷ fs) =
    if is_injected name then user_fields fs else (name, value) ∷ user_fields fs

abbrev connection_fields : Connection → Fields
connection_fields c =
    if c.keep_alive
    then (codes "connection", codes "keep-alive")
      ∷ (codes "keep-alive", codes "timeout=" ++ format_u64 c.keep_alive_timeout_secs)
      ∷ []
    else (codes "connection", codes "close") ∷ []

-- What a reader gives until a read is empty or fails, and whether one fails
unfoldable pub arrived : List (Option Bytes) → List Bytes
arrived [] = []
arrived (none ∷ reads) = []
arrived (some [] ∷ reads) = []
arrived (some (c ∷ s) ∷ reads) = (c ∷ s) ∷ arrived reads

unfoldable pub fails : List (Option Bytes) → Bool
fails [] = false
fails (none ∷ reads) = true
fails (some [] ∷ reads) = false
fails (some (c ∷ s) ∷ reads) = fails reads

-- Chunks that are not ended
unfoldable pub all_chunks : List Bytes → Bytes
all_chunks [] = []
all_chunks (s ∷ parts) = write_chunk s ++ all_chunks parts

abbrev wire : Fields → Option Body → Bytes
wire fs none = []
wire fs (some (bytes s _)) = if is_chunked fs then write_chunk s ++ write_terminating_chunk else s
wire fs (some (stream reads _ _)) =
    if is_chunked fs
    then (if fails reads then all_chunks (arrived reads) else write_stream (arrived reads))
    else join (arrived reads)

-- A read of the body fails.
abbrev body_fails : Option Body → Bool
body_fails none = false
body_fails (some (bytes s _)) = false
body_fails (some (stream reads _ _)) = fails reads

module _ {H : Type 0} where
  abbrev zero_length_field : HttpResponse H → Fields
  zero_length_field response =
      if not (status_forbids_body response.status_code)
        && is_none response.body
        && is_none (Fields.get response.field_lines (codes "content-length"))
      then (codes "content-length", codes "0") ∷ []
      else []

  -- The fields of a response, in order, but for its cookies
  abbrev pub sent_fields : Bytes → Connection → HttpResponse H → Fields
  sent_fields date c response =
      (codes "date", date)
      ∷ (connection_fields c ++ (zero_length_field response ++ user_fields response.field_lines))

  -- The body is sent, and a read of it fails.
  abbrev pub send_fails : HttpResponse H → Bool
  send_fails response =
      not response.suppress_body
      && not (status_forbids_body response.status_code)
      && body_fails response.body

  -- The bytes of the body on the wire: of a stream whose reader fails, what it gave before
  abbrev pub body_bytes : HttpResponse H → Bytes
  body_bytes response =
      if not response.suppress_body && not (status_forbids_body response.status_code)
      then wire response.field_lines response.body
      else []

print-append : (fs gs : Fields) → Fields.print (fs ++ gs) ≡ Fields.print fs ++ Fields.print gs
unfolding Fields.print
print-append [] gs = refl
print-append ((n, v) ∷ fs) gs = rw (print-append fs gs) (simp append_assoc)

user_lines-print : (fs : Fields) → user_lines fs ≡ Fields.print (user_fields fs)
unfolding user_lines user_fields Fields.print
user_lines-print [] = refl
user_lines-print ((name, value) ∷ fs) = elim (Bool-cases (is_injected name)) [
  | inl e ↦ rw e (user_lines-print fs)
  | inr e ↦ rw (e, user_lines-print fs) (simp append_assoc)
]

connection_lines-print : (c : Connection) → connection_lines c ≡ Fields.print (connection_fields c)
unfolding connection_lines Fields.print
connection_lines-print c = elim (Bool-cases c.keep_alive) [
  | inl e ↦ rw e (simp append-nil)
  | inr e ↦ rw e refl
]

copied-arrived :
    (reads : List (Option Bytes)) → copied reads ≡ (not (fails reads), join (arrived reads))
unfolding copied arrived fails
copied-arrived [] = refl
copied-arrived (none ∷ reads) = refl
copied-arrived (some [] ∷ reads) = refl
copied-arrived (some (c ∷ s) ∷ reads) = rw (copied-arrived reads) refl

streamed-arrived :
    (reads : List (Option Bytes))
    → streamed reads ≡ (
      not (fails reads),
      if fails reads then all_chunks (arrived reads) else write_stream (arrived reads),
    )
unfolding streamed arrived fails all_chunks write_stream
streamed-arrived [] = refl
streamed-arrived (none ∷ reads) = refl
streamed-arrived (some [] ∷ reads) = refl
streamed-arrived (some (c ∷ s) ∷ reads) = elim (Bool-cases (fails reads)) [
  | inl e ↦ rw (streamed-arrived reads, e) refl
  | inr e ↦ rw (streamed-arrived reads, e) refl
]

write_body-written :
    (b : Option Body) (fs : Fields) (w : Writer)
    → w.broken ≡ false
    → let (done, v) = write_body b fs w in
      (done ≡ not (body_fails b))
      × (v.broken ≡ false)
      × (all_written v ≡ all_written w ++ wire fs b)
unfolding write_body write_all flush
write_body-written none fs w sound = (refl, sound, sym (append-nil _))
write_body-written (some (bytes s t)) fs w sound = elim (Bool-cases (is_chunked fs)) [
  | inl e ↦ rw e (refl, sound, simp append_assoc)
  | inr e ↦ rw e (refl, sound, simp append_assoc)
]
write_body-written (some (stream reads n t)) fs w sound = elim (Bool-cases (is_chunked fs)) [
  | inl e ↦ rw (sound, e, streamed-arrived reads) (refl, refl, refl)
  | inr e ↦ rw (sound, e, copied-arrived reads) (refl, refl, refl)
]

if_not : {A : Type 0} (b : Bool) (x y : A) → (if not b then x else y) ≡ (if b then y else x)
if_not true x y = refl
if_not false x y = refl

then_flush-written :
    (reader : Bytes) (p : Bool × Writer)
    → p.1.broken ≡ false
    → let (done, v) = then_flush reader p in
      (done ≡ p.0)
      × (all_written v ≡ all_written p.1)
      × (p.0 ≡ true → reader ≡ [] → v.buffered ≡ [])
unfolding flush_if_idle flush
then_flush-written reader (false, w) sound = (refl, refl, λ e _. absurd (cc))
then_flush-written [] (true, w) sound = rw sound (refl, append-nil _, λ _ _. refl)
then_flush-written (c ∷ reader) (true, w) sound = (refl, refl, λ _ e. absurd (cc))

module _ {H : Type 0} where
  zero_length-print :
      (response : HttpResponse H)
      → zero_length_line response ≡ Fields.print (zero_length_field response)
  unfolding zero_length_line Fields.print
  zero_length-print response =
      elim (Bool-cases (
        not (status_forbids_body response.status_code)
        && is_none response.body
        && is_none (Fields.get response.field_lines (codes "content-length")))) [
          | inl e ↦ rw e refl
          | inr e ↦ rw e refl
        ]

  -- The head of a response is its status line, its fields, its cookies and an empty line.
  abbrev pub head_bytes : ℕ → DateCache → Connection → HttpResponse H → Bytes
  head_bytes now cache c response =
      (response.http_version ++ (codes " " ++ (to_bytes response.status_code ++ codes "\r\n")))
      ++ (Fields.print (sent_fields cache.text c response)
          ++ (cookie_lines now response.cookies ++ codes "\r\n"))

  sent_fields-print :
      (date : Bytes) (c : Connection) (response : HttpResponse H)
      → Fields.print (sent_fields date c response)
        ≡ codes "date: "
          ++ (date
              ++ (codes "\r\n"
                  ++ (connection_lines c
                      ++ (zero_length_line response ++ user_lines response.field_lines))))
  unfolding Fields.print
  sent_fields-print date c response =
      rw
        (
          connection_lines-print c,
          zero_length-print response,
          user_lines-print response.field_lines,
          print-append (connection_fields c),
          print-append (zero_length_field response),
        )
        refl

  write_head-print :
      (format : ℕ → Bytes) (now_secs now : ℕ) (cache : DateCache) (c : Connection)
      (response : HttpResponse H)
      → let (dated, head) = write_head format now_secs now cache c response in
        head ≡ head_bytes now dated c response
  unfolding write_head write_date_header
  write_head-print format now_secs now cache c response =
      rw (sent_fields-print _ c response) (simp append_assoc)

  body_or_none-written :
      (response : HttpResponse H) (w : Writer)
      → w.broken ≡ false
      → let (done, v) = body_or_none response w in
        (done ≡ not (send_fails response))
        × (v.broken ≡ false)
        × (all_written v ≡ all_written w ++ body_bytes response)
  body_or_none-written response w sound =
      elim (Bool-cases
        (not response.suppress_body && not (status_forbids_body response.status_code))) [
          | inl e ↦ rw e (write_body-written response.body response.field_lines w sound)
          | inr e ↦ rw e (refl, sound, sym (append-nil _))
        ]

  -- On a transport that does not break, writing a response succeeds unless its body is sent and a read
  -- of it fails. Behind the bytes written before, it writes the status line, the fields with the date
  -- and the state of the connection in front, the cookies and an empty line, and, where the response
  -- may have a body, its bytes: of a stream all that its reader gives until it ends or fails, in chunks
  -- where the fields say so, with a last chunk only if no read failed. Where it succeeds, everything is
  -- flushed if no further request is in the reader, and the hook is called with the status; where it
  -- fails, no hook is called. The input of the connection stays.
  pub write_response-print :
      (format : ℕ → Bytes) (now_secs now : ℕ) (cache : DateCache) (response : HttpResponse H)
      (c : Connection)
      → c.writer.broken ≡ false
      → let r = write_response format now_secs now cache response c in
        (r.succeeded ≡ not (send_fails response))
        × (all_written r.connection.writer
            ≡ all_written c.writer ++ (head_bytes now r.cache c response ++ body_bytes response))
        × (send_fails response ≡ false → c.input.reader ≡ [] → r.connection.writer.buffered ≡ [])
        × (r.hook ≡ (if send_fails response then none else call_hook response))
        × (r.connection.input ≡ c.input)
  unfolding write_response write_all
  write_response-print format now_secs now cache response c sound =
      let (dated, head) = write_head format now_secs now cache c response in
      let w : Writer = write_all head c.writer in
      let text : head ≡ head_bytes now dated c response =
        write_head-print format now_secs now cache c response in
      let (done, sound_after, body) = body_or_none-written response w sound in
      let (flushed, same, idle) =
        then_flush-written c.input.reader (body_or_none response w) sound_after in
      let ended = flushed ∙ done in
      let joined : all_written w ++ body_bytes response
          ≡ all_written c.writer ++ (head ++ body_bytes response) =
        simp append_assoc in
      (
        ended,
        same
            ∙ (body ∙ (joined ∙ ap (λ s. all_written c.writer ++ (s ++ body_bytes response)) text)),
        λ e. idle (done ∙ ap not e),
        ap (λ b. if b then call_hook response else none) ended
            ∙ if_not (send_fails response) (call_hook response) none,
        refl,
      )
