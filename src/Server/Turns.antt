-- ===== src/Server/Turns.antt =====
-- One turn of a connection (src/server.rs): a request is read, answered, and the next one is found
-- right behind it.
use mhttp.Common.{
  ◌≤◌, ◌≡◌, refl, sym, ap, ◌∙◌, Bool, true, false, Option, none, some, List, [], ◌∷◌, ◌++◌, Bytes,
  codes, ltb, length, All, arith, if◌then◌else◌,
}
use mathlib.Core.Path.{subst}
use mhttp.Input.Reads.{whole}
use mhttp.FieldLines.Fields
use mhttp.FieldLines.Fields.{Fields}
use mhttp.Method.{HttpMethod, method_eq, options, head}
use mhttp.Router.{RouteDefinition, Params, build, find_route}
use mhttp.Router.Answers.{find_route_sound}
use mhttp.Router.Held.{In}
use mhttp.Request.{unread, is_chunked_of, make_request, IpAddr, Outcome, HttpRequest, ok}
use mhttp.Request.Parsing.{request_head, IsWritable, announced}
use mhttp.Response.{HttpResponse}
use mhttp.Cors.{Cors}
use mhttp.Connection.{Connection, set_keep_alive, read_request}
use mhttp.Connection.Reading.{Prompt, IsHead}
use mhttp.Connection.Requests.{read_request-request_head}
use mhttp.Call.{HttpCall, Finished, header, new_call, with_connection, response}
use mhttp.Call.Drain.{KeptAt, finish-KeptAt}
use mhttp.Server.{
  Clock, Handler, HttpServer, keeps_alive, run_route, run_match, run_call, answer_call,
  handle_preflight, send_some, with_hook_of, method_to_match, handle_call, handle_read,
  handle_single_request,
}
use mhttp.Server.Sending.{send-broken, send-input, read_request-broken}

abbrev pub NextAt : Bytes → Option Finished → Type 0
NextAt rest none = ⊥
NextAt rest (some f) = KeptAt rest f

module _ {H : Type 0} where
  -- The step leaves the input, the state of the body and the soundness of the transport as they are.
  pub record Same (before after : HttpCall H) : Type 0 where
    pub input : after.connection.input ≡ before.connection.input
    pub state : after.request.body_state ≡ before.request.body_state
    pub broken : after.connection.writer.broken ≡ before.connection.writer.broken

  -- A handler that does not touch the body, though it may respond
  abbrev pub Quiet : Handler H → Type 0
  Quiet f = (call : HttpCall H) → Same call (f call)

  Same-trans : (a b c : HttpCall H) → Same a b → Same b c → Same a c
  Same-trans a b c h k = record {
    input = k.input ∙ h.input;
    state = k.state ∙ h.state;
    broken = k.broken ∙ h.broken;
  }

  Same-refl : (a : HttpCall H) → Same a a
  Same-refl a = record { input = refl; state = refl; broken = refl }

  Same-if :
      (b : Bool) (call x y : HttpCall H)
      → Same call x
      → Same call y
      → Same call (if b then x else y)
  Same-if true call x y h k = h
  Same-if false call x y h k = k

  with_hook-Same : (o : Option H) (call : HttpCall H) → Same call (with_hook_of o call)
  with_hook-Same none call = Same-refl call
  with_hook-Same (some hook) call = record { input = refl; state = refl; broken = refl }

  run_route-Same :
      (middleware : List (Handler H)) (handler : Handler H) (call : HttpCall H)
      → All Quiet middleware
      → Quiet handler
      → Same call (run_route middleware handler call)
  unfolding run_route
  run_route-Same [] handler call _ quiet = quiet call
  run_route-Same (f ∷ rest) handler call (first, more) quiet =
      Same-if (f call).connection.has_written_response call (f call) _ (first call)
        (Same-trans call (f call) _ (first call) (run_route-Same rest handler (f call) more quiet))

  abbrev pub QuietRoute : RouteDefinition (Handler H) → Type 0
  QuietRoute r = All Quiet r.middleware × Quiet r.handler

  run_match-Same :
      (clock : Clock) (server : HttpServer H) (call : HttpCall H)
      (o : Option (RouteDefinition (Handler H) × Params))
      → ((r : RouteDefinition (Handler H)) (ps : Params) → o ≡ some (r, ps) → QuietRoute r)
      → Same call (run_match clock server call o)
  run_match-Same clock server call none quiet = record {
    input = send-input clock _ call.connection;
    state = refl;
    broken = send-broken clock _ call.connection;
  }
  run_match-Same clock server call (some (r, ps)) quiet =
      let (first, last) = quiet r ps refl in
      let run = run_route-Same r.middleware r.handler _ first last in
      record { input = run.input; state = run.state; broken = run.broken }

  run_call-Same :
      (clock : Clock) (server : HttpServer H) (routes : List (RouteDefinition (Handler H)))
      (call : HttpCall H)
      → server.router ≡ build routes
      → ((r : RouteDefinition (Handler H)) → In r routes → QuietRoute r)
      → Same call (run_call clock server call)
  unfolding run_call
  run_call-Same clock server routes call built quiet =
      let hooked = with_hook_of server.on_request_complete call in
      let h = with_hook-Same server.on_request_complete call in
      let head_call : HttpCall H = record hooked { suppress_body = true } in
      let ready : HttpCall H = if method_eq call.request.method head then head_call else hooked in
      let same : Same call ready =
        Same-if (method_eq call.request.method head) call head_call hooked
          (record { input = h.input; state = h.state; broken = h.broken }) h in
      Same-trans call ready _ same (
        run_match-Same clock server ready _ (λ r ps e.
          let (there, _, _) =
            find_route_sound routes (method_to_match call.request.method) call.request.route r ps (
              ap (λ n. find_route n (method_to_match call.request.method) call.request.route)
                (sym built)
              ∙ e) in
          quiet r there))

  send_some-Same :
      (clock : Clock) (o : Option (HttpResponse H)) (call : HttpCall H)
      → Same call (send_some clock o call)
  send_some-Same clock none call = Same-refl call
  send_some-Same clock (some r) call = record {
    input = send-input clock r call.connection;
    state = refl;
    broken = send-broken clock r call.connection;
  }

  preflight-Same :
      (clock : Clock) (cors : Cors) (call : HttpCall H)
      → Same call (handle_preflight clock cors call)
  unfolding handle_preflight response
  preflight-Same clock cors call =
      let sent = send_some-Same clock _ (record call { response_hook = none }) in
      record { input = sent.input; state = sent.state; broken = sent.broken }

  answer-Same :
      (clock : Clock) (server : HttpServer H) (cors : Option Cors) (call : HttpCall H)
      → Same call (run_call clock server call)
      → Same call (answer_call clock server cors call)
  answer-Same clock server none call run = run
  answer-Same clock server (some cors) call run =
      Same-if (method_eq call.request.method options) call _ _ (preflight-Same clock cors call) run

  -- A call with an unread body of announced length, on a sound transport that goes on with `rest`
  pub record Stands (body rest : Bytes) (call : HttpCall H) : Type 0 where
    pub sound : call.connection.writer.broken ≡ false
    pub prompt : Prompt call.connection.input.incoming
    pub state : call.request.body_state ≡ unread (length body) false
    pub split : whole call.connection.input ≡ body ++ rest

  pub handle_call-KeptAt :
      (clock : Clock) (server : HttpServer H) (routes : List (RouteDefinition (Handler H)))
      (call : HttpCall H) (body rest : Bytes)
      → server.router ≡ build routes
      → ((r : RouteDefinition (Handler H)) → In r routes → QuietRoute r)
      → keeps_alive (header (codes "connection") call) ≡ true
      → Stands body rest call
      → KeptAt rest (handle_call clock server call)
  unfolding handle_call
  handle_call-KeptAt clock server routes call body rest built quiet alive h =
      let ready : HttpCall H =
        with_connection (set_keep_alive true server.keep_alive_timeout call.connection) call in
      let s =
        answer-Same clock server server.cors ready
          (run_call-Same clock server routes ready built quiet) in
      rw alive (
        finish-KeptAt (answer_call clock server server.cors ready) body rest
          (s.broken ∙ unfold set_keep_alive in h.sound)
          (subst (λ i. Prompt i.incoming) (sym s.input) (unfold set_keep_alive in h.prompt))
          (s.state ∙ h.state) (ap whole s.input ∙ unfold set_keep_alive in h.split))

  -- A request head that announces a body within the limit, is not chunked, and does not ask for the end of the
  -- connection
  pub record Ordinary (server : HttpServer H) (fs : Fields) (body : Bytes) : Type 0 where
    pub length_of : announced fs ≡ length body
    pub within : length body ≤ server.max_body_size
    pub plain : is_chunked_of (Fields.get fs (codes "transfer-encoding")) ≡ false
    pub alive : keeps_alive (Fields.get fs (codes "connection")) ≡ true

  handle_read-NextAt :
      (clock : Clock) (server : HttpServer H) (routes : List (RouteDefinition (Handler H)))
      (request_id : Bytes) (p : Outcome (Option HttpRequest) × Connection) (r : HttpRequest)
      (body rest : Bytes)
      → server.router ≡ build routes
      → ((r : RouteDefinition (Handler H)) → In r routes → QuietRoute r)
      → p.0 ≡ ok (some r)
      → keeps_alive (header (codes "connection") (new_call {H = H} p.1 r request_id)) ≡ true
      → Stands body rest (new_call p.1 r request_id)
      → NextAt rest (handle_read clock server request_id p)
  handle_read-NextAt clock server routes request_id (o, d) r body rest built quiet asked alive h =
      rw asked (
        handle_call-KeptAt clock server routes (new_call d r request_id) body rest built quiet alive
          h)

  -- The request is read, and its call stands in front of the body.
  pub read_request-Stands :
      (server : HttpServer H) (peer : IpAddr) (request_id : Bytes) (c : Connection) (m : HttpMethod)
      (route version : Bytes) (fs : Fields) (body rest : Bytes)
      → c.writer.broken ≡ false
      → Prompt c.input.incoming
      → IsWritable route version fs
      → IsHead (request_head m route version fs)
      → Ordinary server fs body
      → whole c.input ≡ request_head m route version fs ++ (body ++ rest)
      → let p = read_request peer server.max_body_size c in
        let r = make_request (m, route, version) fs peer server.max_body_size in
        (p.0 ≡ ok (some r))
        × (keeps_alive (header (codes "connection") (new_call {H = H} p.1 r request_id)) ≡ true)
        × Stands body rest (new_call {H = H} p.1 r request_id)
  read_request-Stands server peer request_id c m route version fs body rest sound prompt writable
        ends plain e =
      let (o, left, more) =
        read_request-request_head peer server.max_body_size c m route version fs (body ++ rest)
          sound prompt writable ends e in
      let p = read_request peer server.max_body_size c in
      let r = make_request (m, route, version) fs peer server.max_body_size in
      let small : ltb server.max_body_size (announced fs) ≡ false =
        ground (arith, plain.length_of, plain.within) in
      let asked : p.0 ≡ ok (some r) = o ∙ rw small refl in
      let state : r.body_state ≡ unread (length body) false =
        unfold make_request in rw (plain.length_of, plain.plain) refl in
      let alive : keeps_alive (Fields.get r.field_lines (codes "connection")) ≡ true =
        unfold make_request in plain.alive in
      (
        asked,
        (unfold header new_call in alive),
        record {
          sound = unfold new_call in read_request-broken peer server.max_body_size c sound;
          prompt = unfold new_call in more;
          state = unfold new_call in state;
          split = unfold new_call in left;
        },
      )

  -- Behind a request with a body of announced length, which no handler or middleware touches, the
  -- connection is kept and stands exactly behind the body, so the next request is read from its first
  -- byte. The request does not ask for the end of the connection, its body is within the limit and is
  -- not chunked, and the bytes arrive in time, in whatever parts, on a sound transport. What is
  -- answered, or whether anything is, is left open.
  pub handle_single_request-NextAt :
      (clock : Clock) (server : HttpServer H) (routes : List (RouteDefinition (Handler H)))
      (peer : IpAddr) (request_id : Bytes) (c : Connection) (m : HttpMethod) (route version : Bytes)
      (fs : Fields) (body rest : Bytes)
      → server.router ≡ build routes
      → ((r : RouteDefinition (Handler H)) → In r routes → QuietRoute r)
      → c.writer.broken ≡ false
      → Prompt c.input.incoming
      → IsWritable route version fs
      → IsHead (request_head m route version fs)
      → Ordinary server fs body
      → whole c.input ≡ request_head m route version fs ++ (body ++ rest)
      → NextAt rest (handle_single_request clock server peer request_id c)
  unfolding handle_single_request
  handle_single_request-NextAt clock server routes peer request_id c m route version fs body rest
        built quiet sound prompt writable ends plain e =
      let p = read_request peer server.max_body_size c in
      let r = make_request (m, route, version) fs peer server.max_body_size in
      let (asked, alive, stands) =
        read_request-Stands server peer request_id c m route version fs body rest sound prompt
          writable ends plain e in
      handle_read-NextAt clock server routes request_id p r body rest built quiet asked alive stands
