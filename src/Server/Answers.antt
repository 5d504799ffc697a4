-- ===== src/Server/Answers.antt =====
-- What is written while a request is answered (src/server.rs): one response, by a handler, a middleware or
-- the server.
use mhttp.Common.{
  ℕ, ◌≡◌, ◌⊎◌, refl, sym, ap, ◌∙◌, Bool, true, false, Option, none, some, List, [], ◌∷◌, ◌++◌,
  Bytes, codes, eq_ignore_ascii_case, All, arith, if◌then◌else◌, Bool-cases, Option-cases, inl, inr,
  is_empty,
}
use mathlib.Core.Path.{subst}
use mhttp.FieldLines.Fields
use mhttp.FieldLines.Fields.{Fields}
use mhttp.Method.{method_eq, options, head}
use mhttp.Router.{RouteDefinition, Params, Node, build, find_route}
use mhttp.Router.Answers.{find_route_sound}
use mhttp.Router.Held.{In}
use mhttp.Response.{HttpResponse, empty, new_response, set_on_sent, suppress}
use mhttp.Cors.{Cors}
use mhttp.Cors.Policy.{apply_cors-Preflight}
use mhttp.Connection.{Connection}
use mhttp.Connection.Writing.{DateCache, write_response}
use mhttp.Connection.Sent.{all_written, head_bytes, body_bytes, send_fails, write_response-print}
use mhttp.Call.{HttpCall, header, response}
use mhttp.Server.{
  Clock, Handler, HttpServer, send, send_on, allowed_methods, apply_cors_to_uninit, run_route,
  run_match, run_call, answer_call, handle_preflight, with_hook_of, with_params, method_to_match,
  no_route,
}
use mhttp.Server.Turns.{Quiet, QuietRoute}
use mhttp.Input.Reads.{whole}

module _ (H : Type 0) where
  -- The bytes of one response, the body included, as `write_response` writes them
  pub record IsResponse (text : Bytes) : Type 0 where
    pub sent : HttpResponse H
    pub now : ℕ
    pub dated : DateCache
    pub connection : Connection
    pub bytes : text ≡ head_bytes now dated connection sent ++ body_bytes sent
    pub whole : send_fails sent ≡ false

  -- One response was written, and nothing else.
  pub record Answers (before after : Connection) : Type 0 where
    pub text : Bytes
    pub one : IsResponse text
    pub written : all_written after.writer ≡ all_written before.writer ++ text
    pub said : after.has_written_response ≡ true

  -- Nothing was written, and no response was.
  pub record Passes (before after : Connection) : Type 0 where
    pub written : all_written after.writer ≡ all_written before.writer
    pub said : after.has_written_response ≡ false

module _ {H : Type 0} where
  -- On a sound transport the handler writes one response.
  abbrev pub Responds : Handler H → Type 0
  Responds f =
      (call : HttpCall H)
      → call.connection.writer.broken ≡ false
      → Answers H call.connection (f call).connection

  -- A middleware writes one response, or leaves that to what comes behind it.
  abbrev pub MayRespond : Handler H → Type 0
  MayRespond f =
      (call : HttpCall H)
      → call.connection.writer.broken ≡ false
      → Answers H call.connection (f call).connection ⊎ Passes H call.connection (f call).connection

  abbrev pub RespondingRoute : RouteDefinition (Handler H) → Type 0
  RespondingRoute r = All MayRespond r.middleware × Responds r.handler

  pub send_on-Answers :
      (clock : Clock) (r : HttpResponse H) (call : HttpCall H)
      → call.connection.writer.broken ≡ false
      → send_fails r ≡ false
      → Answers H call.connection (send_on clock r call).connection
  unfolding send write_response
  send_on-Answers clock r call sound whole =
      let (_, text, _, _, _) =
        write_response-print clock.format clock.now_secs clock.now clock.cache r call.connection
          sound in
      record {
        text = _;
        one = record {
          sent = r;
          now = clock.now;
          dated =
              (write_response clock.format clock.now_secs clock.now clock.cache r
                call.connection).cache;
          connection = call.connection;
          bytes = refl;
          whole = whole;
        };
        written = text;
        said = refl;
      }

  pub no_body : (r : HttpResponse H) → r.body ≡ none → send_fails r ≡ false
  no_body r e = rw e (ground arith)

  if_Answers :
      (b : Bool) (c : Connection) (x y : HttpCall H)
      → (b ≡ true → Answers H c x.connection)
      → (b ≡ false → Answers H c y.connection)
      → Answers H c (if b then x else y).connection
  if_Answers true c x y h k = h refl
  if_Answers false c x y h k = k refl

  after_Passes : (b c d : Connection) → Passes H b c → Answers H c d → Answers H b d
  after_Passes b c d passed answers = record {
    text = answers.text;
    one = answers.one;
    written = answers.written ∙ ap (λ s. s ++ answers.text) passed.written;
    said = answers.said;
  }

  run_route-Answers :
      (middleware : List (Handler H)) (handler : Handler H) (call : HttpCall H)
      → All Quiet middleware
      → All MayRespond middleware
      → Responds handler
      → call.connection.writer.broken ≡ false
      → Answers H call.connection (run_route middleware handler call).connection
  unfolding run_route
  run_route-Answers [] handler call _ _ responds sound = responds call sound
  run_route-Answers (f ∷ rest) handler call (quiet, more) (may, others) responds sound =
      elim (may call sound) [
        | inl answers ↦
            if_Answers (f call).connection.has_written_response call.connection (f call) _
              (λ _. answers) (λ e. absurd (let said = answers.said in cc))
        | inr passes ↦
            if_Answers (f call).connection.has_written_response call.connection (f call) _
              (λ e. absurd (let said = passes.said in cc))
              (λ _. after_Passes call.connection (f call).connection _ passes (
                run_route-Answers rest handler (f call) more others responds
                  ((quiet call).broken ∙ sound)))
      ]

  no_route-body :
      (router : Node (Handler H)) (cors : Option Cors) (call : HttpCall H)
      → (no_route router cors call).body ≡ none
  unfolding no_route empty
  no_route-body router cors call =
      let bare =
        apply_cors_to_uninit cors call
          (new_response call.request.http_version call.request_id call.request.route) in
      elim (Bool-cases (is_empty (allowed_methods router call.request.route))) [
        | inl e ↦ rw e refl
        | inr e ↦ rw e refl
      ]

  run_match-Answers :
      (clock : Clock) (server : HttpServer H) (call : HttpCall H)
      (o : Option (RouteDefinition (Handler H) × Params))
      → ((r : RouteDefinition (Handler H)) (ps : Params)
          → o ≡ some (r, ps)
          → QuietRoute r × RespondingRoute r)
      → call.connection.writer.broken ≡ false
      → Answers H call.connection (run_match clock server call o).connection
  run_match-Answers clock server call none good sound =
      send_on-Answers clock (no_route server.router server.cors call) call sound (
        no_body (no_route server.router server.cors call)
          (no_route-body server.router server.cors call))
  run_match-Answers clock server call (some (r, ps)) good sound =
      let (quiet, responding) = good r ps refl in
      run_route-Answers r.middleware r.handler (with_params ps call) quiet.0 responding.0
        responding.1 sound

  with_hook-connection :
      (o : Option H) (call : HttpCall H) → (with_hook_of o call).connection ≡ call.connection
  with_hook-connection none call = refl
  with_hook-connection (some hook) call = refl

  if_connection :
      (b : Bool) (c : Connection) (x y : HttpCall H)
      → x.connection ≡ c
      → y.connection ≡ c
      → (if b then x else y).connection ≡ c
  if_connection true c x y h k = h
  if_connection false c x y h k = k

  pub run_call-Answers :
      (clock : Clock) (server : HttpServer H) (routes : List (RouteDefinition (Handler H)))
      (call : HttpCall H)
      → server.router ≡ build routes
      → ((r : RouteDefinition (Handler H)) → In r routes → QuietRoute r × RespondingRoute r)
      → call.connection.writer.broken ≡ false
      → Answers H call.connection (run_call clock server call).connection
  unfolding run_call
  run_call-Answers clock server routes call built good sound =
      let hooked = with_hook_of server.on_request_complete call in
      let h = with_hook-connection server.on_request_complete call in
      let head_call : HttpCall H = record hooked { suppress_body = true } in
      let ready : HttpCall H = if method_eq call.request.method head then head_call else hooked in
      let same : ready.connection ≡ call.connection =
        if_connection (method_eq call.request.method head) call.connection head_call hooked h h in
      subst (λ c. Answers H c (run_call clock server call).connection) same
        (run_match-Answers clock server ready _
          (λ r ps e.
            let (there, _, _) =
              find_route_sound routes (method_to_match call.request.method) call.request.route r ps
                (ap (λ n. find_route n (method_to_match call.request.method) call.request.route)
                    (sym built)
                  ∙ e) in
            good r there)
          (ap (λ c. c.writer.broken) same ∙ sound))

  origin_fresh :
      (call : HttpCall H)
      → Fields.get (response call).0.field_lines (codes "access-control-allow-origin") ≡ none
  unfolding response new_response set_on_sent suppress Fields.set Fields.get eq_ignore_ascii_case
  origin_fresh call = elim (Option-cases call.response_hook) [
    | inl e ↦ elim (Bool-cases call.suppress_body) [
      | inl f ↦ rw (e, f) refl
      | inr f ↦ rw (e, f) refl
    ]
    | inr (hook, e) ↦ elim (Bool-cases call.suppress_body) [
      | inl f ↦ rw (e, f) refl
      | inr f ↦ rw (e, f) refl
    ]
  ]

  preflight-Answers :
      (clock : Clock) (cors : Cors) (call : HttpCall H)
      → call.connection.writer.broken ≡ false
      → Answers H call.connection (handle_preflight clock cors call).connection
  unfolding handle_preflight response
  preflight-Answers clock cors call sound =
      let (r, after) = response call in
      let (s, ran, preflight, _) =
        apply_cors-Preflight cors (header (codes "origin") call)
          (header (codes "access-control-request-method") call)
          (header (codes "access-control-request-headers") call) r (origin_fresh call) in
      let answers =
        send_on-Answers clock s (record call { response_hook = none }) sound
          (no_body s preflight.1) in
      rw ran answers

  pub answer-Answers :
      (clock : Clock) (server : HttpServer H) (cors : Option Cors) (call : HttpCall H)
      → call.connection.writer.broken ≡ false
      → Answers H call.connection (run_call clock server call).connection
      → Answers H call.connection (answer_call clock server cors call).connection
  answer-Answers clock server none call sound run = run
  answer-Answers clock server (some cors) call sound run =
      if_Answers (method_eq call.request.method options) call.connection _ _
        (λ _. preflight-Answers clock cors call sound) (λ _. run)
