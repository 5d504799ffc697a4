-- ===== src/Server/Conversations.antt =====
-- `HttpServer::handle_connection` of src/server.rs: one request after the other on a connection, until one
-- turn does not give the connection back.
use mhttp.Common.{
  ◌≡◌, refl, sym, ap, ◌∙◌, false, Option, none, some, List, [], ◌∷◌, ◌++◌, Bytes, length, All,
  arith, append_assoc, append-nil,
}
use mhttp.Input.{Event, received, failed, silent}
use mhttp.Input.Reads.{whole, arriving}
use mhttp.FieldLines.Fields.{Fields}
use mhttp.Method.{HttpMethod}
use mhttp.Router.{RouteDefinition, build}
use mhttp.Router.Held.{In}
use mhttp.Request.{IpAddr, ok}
use mhttp.Request.Parsing.{request_head, IsWritable}
use mhttp.Connection.{Connection, Writer, flush, after_first, read_request, first_read}
use mhttp.Connection.Reading.{Prompt, IsHead}
use mhttp.Call.{Finished, kept, closed}
use mhttp.Server.{Clock, Handler, HttpServer, handle_read, handle_single_request}
use mhttp.Server.Turns.{NextAt, QuietRoute, Ordinary, handle_single_request-NextAt}

-- How a connection ends; `unfinished` where the turns of the model have run out
pub data Conversation : Type 0 where
  ended : Connection → Conversation
  panicked : Conversation
  unfinished : Connection → Conversation

-- What a turn is given: the clock, and the identifier of its request
abbrev pub Turn : Type 0
Turn = Clock × Bytes

module _ {H : Type 0} where
  unfoldable pub handle_connection : HttpServer H → IpAddr → List Turn → Connection → Conversation
  unfolding handle_single_request
  handle_connection server peer [] c = unfinished c
  handle_connection server peer ((clock, request_id) ∷ turns) c =
      elim (handle_single_request clock server peer request_id c) [
        | none ↦ panicked
        | some f ↦ elim f [ closed d ↦ ended d | kept d ↦ handle_connection server peer turns d ]
      ]

-- A request with its body
pub record Asking : Type 0 where
  pub method : HttpMethod
  pub route : Bytes
  pub version : Bytes
  pub fields : Fields
  pub content : Bytes

abbrev pub head_of : Asking → Bytes
head_of a = request_head a.method a.route a.version a.fields

-- A connection that is sound and has such bytes before it
pub record Before (text : Bytes) (c : Connection) : Type 0 where
  pub bytes : whole c.input ≡ text
  pub prompt : Prompt c.input.incoming
  pub sound : c.writer.broken ≡ false

first_read_end :
    (w : Writer) (reader : Bytes) (events : List Event)
    → w.broken ≡ false
    → Prompt events
    → reader ++ arriving events ≡ []
    → first_read w reader events ≡ (ok none, flush w)
unfolding first_read arriving Prompt
first_read_end w (x ∷ reader) events sound prompt e = absurd (cc)
first_read_end w [] [] sound prompt e = rw sound refl
first_read_end w [] (received [] ∷ events) sound prompt e = absurd prompt
first_read_end w [] (received (b ∷ s) ∷ events) sound prompt e = absurd (cc)
first_read_end w [] (failed ∷ events) sound prompt e = absurd prompt
first_read_end w [] (silent ∷ events) sound prompt e = absurd prompt

unfoldable pub written : List Asking → Bytes
written [] = []
written (a ∷ asks) = head_of a ++ (a.content ++ written asks)

module _ {H : Type 0} where
  pub record IsAsking (server : HttpServer H) (a : Asking) : Type 0 where
    pub writable : IsWritable a.route a.version a.fields
    pub head : IsHead (head_of a)
    pub ordinary : Ordinary server a.fields a.content

  turn_kept :
      (server : HttpServer H) (peer : IpAddr) (clock : Clock) (id : Bytes) (turns : List Turn)
      (c : Connection) (rest : Bytes) (o : Option Finished)
      → handle_single_request clock server peer id c ≡ o
      → NextAt rest o
      → (d : Connection) × Before rest d
        × (handle_connection server peer ((clock, id) ∷ turns) c
            ≡ handle_connection server peer turns d)
  unfolding handle_connection
  turn_kept server peer clock id turns c rest none e next = absurd next
  turn_kept server peer clock id turns c rest (some (closed d)) e next = absurd next
  turn_kept server peer clock id turns c rest (some (kept d)) e (bytes, prompt, sound) =
      (d, record { bytes = bytes; prompt = prompt; sound = sound }, rw (e, handle_connection) refl)

  nothing_read :
      (server : HttpServer H) (peer : IpAddr) (clock : Clock) (id : Bytes) (c : Connection)
      → Before [] c
      → (d : Connection) × (handle_single_request clock server peer id c ≡ some (closed d))
  unfolding handle_single_request read_request whole
  nothing_read server peer clock id c before =
      let e =
        first_read_end c.writer c.input.reader c.input.incoming before.sound before.prompt
          before.bytes in
      (
        _,
        ap
            (λ r.
              handle_read clock server id (
                after_first peer server.max_body_size (record c { has_written_response = false })
                  r))
            e,
      )

  turns_end :
      (server : HttpServer H) (peer : IpAddr) (turn : Turn) (c : Connection)
      → Before [] c
      → (d : Connection) × (handle_connection server peer (turn ∷ []) c ≡ ended d)
  unfolding handle_connection
  turns_end server peer (clock, id) c before =
      let (d, e) = nothing_read server peer clock id c before in (d, rw (e, handle_connection) refl)

  turns_kept :
      (server : HttpServer H) (routes : List (RouteDefinition (Handler H))) (peer : IpAddr)
      (asks : List Asking) (turns more : List Turn) (c : Connection) (rest : Bytes)
      → server.router ≡ build routes
      → ((r : RouteDefinition (Handler H)) → In r routes → QuietRoute r)
      → All (IsAsking server) asks
      → length turns ≡ length asks
      → Before (written asks ++ rest) c
      → (d : Connection) × Before rest d
        × (handle_connection server peer (turns ++ more) c ≡ handle_connection server peer more d)
  unfolding written
  turns_kept server routes peer [] [] more c rest built quiet good same before = (c, before, refl)
  turns_kept server routes peer [] (t ∷ turns) more c rest built quiet good same before =
      absurd (omega arith)
  turns_kept server routes peer (a ∷ asks) [] more c rest built quiet good same before =
      absurd (omega arith)
  turns_kept server routes peer (a ∷ asks) ((clock, id) ∷ turns) more c rest built quiet (h, good)
        same before =
      let split =
        before.bytes
        ∙ append_assoc (head_of a) (a.content ++ written asks) rest
        ∙ ap (◌++◌ (head_of a)) (append_assoc a.content (written asks) rest) in
      let next =
        handle_single_request-NextAt clock server routes peer id c a.method a.route a.version
          a.fields a.content (written asks ++ rest) built quiet before.sound before.prompt
          h.writable h.head h.ordinary split in
      let (d, here, first) =
        turn_kept server peer clock id (turns ++ more) c (written asks ++ rest) _ refl next in
      let (e, there, later) =
        turns_kept server routes peer asks turns more d rest built quiet good (omega arith) here in
      (e, there, first ∙ later)

  turns_out :
      (server : HttpServer H) (peer : IpAddr) (c : Connection)
      → handle_connection server peer [] c ≡ unfinished c
  unfolding handle_connection
  turns_out server peer c = refl

  -- A client that sends requests one behind the other, and then ends its stream, is served to the end,
  -- however the bytes arrive, in time and on a sound transport, where no handler reads a body: each
  -- request takes one turn, so as many turns as requests leave the connection with nothing before it,
  -- and one turn more ends it.
  pub handle_connection-ended :
      (server : HttpServer H) (routes : List (RouteDefinition (Handler H))) (peer : IpAddr)
      (asks : List Asking) (turns : List Turn) (last : Turn) (c : Connection)
      → server.router ≡ build routes
      → ((r : RouteDefinition (Handler H)) → In r routes → QuietRoute r)
      → All (IsAsking server) asks
      → length turns ≡ length asks
      → Before (written asks) c
      → ((d : Connection) × Before [] d × (handle_connection server peer turns c ≡ unfinished d))
        × ((d : Connection) × (handle_connection server peer (turns ++ last ∷ []) c ≡ ended d))
  handle_connection-ended server routes peer asks turns last c built quiet good same before =
      let all = append-nil (written asks) in
      let start : Before (written asks ++ []) c = record {
        bytes = before.bytes ∙ sym all;
        prompt = before.prompt;
        sound = before.sound;
      } in
      let (d, here, ran) =
        turns_kept server routes peer asks turns [] c [] built quiet good same start in
      let (e, there, went) =
        turns_kept server routes peer asks turns (last ∷ []) c [] built quiet good same start in
      let (f, over) = turns_end server peer last e there in
      let whole_turns : turns ++ [] ≡ turns = append-nil turns in
      (
        (
          d,
          here,
          sym (ap (λ t. handle_connection server peer t c) whole_turns)
              ∙ ran
              ∙ turns_out server peer d,
        ),
        (f, went ∙ over),
      )
