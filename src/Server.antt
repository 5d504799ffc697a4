-- ===== src/Server.antt =====
-- `HttpServer::handle_single_request` of src/server.rs: one request from its first byte to the
-- connection that is left. Middleware and handlers are functions on the call. The set of active
-- requests, which only counts, and the identifier, which is text, are left to their own modules.
pub mod Refusals
pub mod Sending
pub mod Barrier
pub mod Restarts
pub mod Telemetry
pub mod Conversations
pub mod Turns
pub mod Answers
pub mod Answered
pub mod Tests
use mhttp.Common.{
  ℕ, Bool, true, false, ◌&&◌, not, Option, none, some, List, [], ◌∷◌, ◌++◌, Bytes, codes,
  if◌then◌else◌, is_empty, eq_ignore_ascii_case,
}
use mhttp.Method.{HttpMethod, get, post, put, delete, patch, head, options, method_eq, to_string}
use mhttp.Router.{RouteDefinition, Node, Params, find_route}
use mhttp.Request.{
  Outcome, ok, err, panic, RequestError, payload_too_large, request_line_too_long,
  headers_too_large, timeout, HttpRequest, IpAddr,
}
use mhttp.Response.{HttpResponse, new_response, set_status_code, add_header, empty}
use mhttp.Response.Status.{
  HttpStatusCode, content_too_large, uri_too_long, request_header_fields_too_large, request_timeout,
  bad_request, not_found, method_not_allowed,
}
use mhttp.Cors.{Cors, add_cors_headers, apply_cors}
use mhttp.Connection.{Connection, set_keep_alive, read_request}
use mhttp.Connection.Writing.{DateCache, write_response}
use mhttp.Call.{
  HttpCall, Finished, kept, closed, new_call, header, response, finish, shutdown, with_connection,
}

-- What `write_date_header` reads: the clock, the text of a time, and the date that is kept
pub record Clock : Type 0 where
  pub format : ℕ → Bytes
  pub now_secs : ℕ
  pub now : ℕ
  pub cache : DateCache

abbrev pub Handler : Type 0 → Type 0
Handler H = HttpCall H → HttpCall H

pub record HttpServer (H : Type 0) : Type 0 where
  pub cors : Option Cors
  pub router : Node (Handler H)
  pub max_body_size : ℕ
  pub keep_alive_timeout : ℕ
  pub on_request_complete : Option H

-- The status for a request that could not be read
unfoldable pub status_of : RequestError → HttpStatusCode
status_of payload_too_large = content_too_large
status_of request_line_too_long = uri_too_long
status_of headers_too_large = request_header_fields_too_large
status_of timeout = request_timeout
status_of _ = bad_request

unfoldable pub keeps_alive : Option Bytes → Bool
unfolding eq_ignore_ascii_case
keeps_alive none = true
keeps_alive (some v) = not (eq_ignore_ascii_case v (codes "close"))

abbrev pub is_found {ℓ} : {A : Type ℓ} → Option A → Bool
is_found none = false
is_found (some _) = true

-- The methods that the path may be asked with, among some
unfoldable pub methods_in : {X : Type 0} → Node X → Bytes → List HttpMethod → List HttpMethod
unfolding find_route
methods_in router route [] = []
methods_in router route (m ∷ ms) =
    let rest = methods_in router route ms in
    if is_found (find_route router m route) then m ∷ rest else rest

unfoldable pub allowed_methods : {X : Type 0} → Node X → Bytes → List HttpMethod
unfolding methods_in
allowed_methods router route = methods_in router route (get ∷ post ∷ put ∷ delete ∷ patch ∷ [])

unfoldable pub has_method : HttpMethod → List HttpMethod → Bool
unfolding method_eq
has_method m [] = false
has_method m (n ∷ ms) = let rest = has_method m ms in if method_eq n m then true else rest

-- `HEAD` is pushed where `GET` is allowed.
unfoldable pub with_head_method : List HttpMethod → List HttpMethod
unfolding has_method
with_head_method ms = if has_method get ms && not (has_method head ms) then ms ++ head ∷ [] else ms

unfoldable pub joined_names : List HttpMethod → Bytes
unfolding to_string
joined_names [] = []
joined_names (m ∷ []) = to_string m
joined_names (m ∷ n ∷ ms) = to_string m ++ (codes ", " ++ joined_names (n ∷ ms))

-- The method that the router is asked for
abbrev pub method_to_match : HttpMethod → HttpMethod
method_to_match m = if method_eq m head then get else m

module _ {H : Type 0} where
  unfoldable pub send : Clock → HttpResponse H → Connection → Connection
  unfolding write_response
  send clock r c = (write_response clock.format clock.now_secs clock.now clock.cache r c).connection

  abbrev pub send_on : Clock → HttpResponse H → HttpCall H → HttpCall H
  send_on clock r call = with_connection (send clock r call.connection) call

-- The answer to a request that could not be read, behind which the connection is shut down
unfoldable pub refuse_request : Clock → Bytes → RequestError → Connection → Connection
unfolding set_keep_alive send new_response set_status_code empty status_of shutdown
refuse_request clock request_id e c =
    let r : HttpResponse Unit =
      empty (set_status_code (status_of e) (new_response (codes "HTTP/1.1") request_id [])) in
    shutdown (send clock r (set_keep_alive false 0 c))

module _ {H : Type 0} where
  abbrev send_some : Clock → Option (HttpResponse H) → HttpCall H → HttpCall H
  send_some clock none call = call
  send_some clock (some r) call = send_on clock r call

  -- `cors.handle_preflight`
  unfoldable pub handle_preflight : Clock → Cors → HttpCall H → HttpCall H
  unfolding header response apply_cors send
  handle_preflight clock cors call =
      let (r, after) = response call in
      send_some clock
        (apply_cors cors (header (codes "origin") call)
          (header (codes "access-control-request-method") call)
          (header (codes "access-control-request-headers") call) true r)
        after

  unfoldable pub apply_cors_to_uninit : Option Cors → HttpCall H → HttpResponse H → HttpResponse H
  unfolding add_cors_headers header
  apply_cors_to_uninit none call r = r
  apply_cors_to_uninit (some cors) call r = add_cors_headers cors (header (codes "origin") call) r

  -- The answer where no route is found: the path is not known, or not with this method.
  unfoldable pub no_route : Node (Handler H) → Option Cors → HttpCall H → HttpResponse H
  unfolding apply_cors_to_uninit new_response set_status_code add_header empty allowed_methods
      with_head_method joined_names
  no_route router cors call =
      let allowed = allowed_methods router call.request.route in
      let r =
        apply_cors_to_uninit cors call
          (new_response call.request.http_version call.request_id call.request.route) in
      if is_empty allowed
      then empty (set_status_code not_found r)
      else empty (
          add_header (codes "allow") (joined_names (with_head_method allowed))
            (set_status_code method_not_allowed r))

  -- The middleware, one after the other until a response was written, and then the handler
  unfoldable pub run_route : List (Handler H) → Handler H → HttpCall H → HttpCall H
  run_route [] handler call = handler call
  run_route (middleware ∷ rest) handler call =
      let later = run_route rest handler (middleware call) in
      if (middleware call).connection.has_written_response then middleware call else later

  abbrev pub with_hook_of : Option H → HttpCall H → HttpCall H
  with_hook_of none call = call
  with_hook_of (some hook) call = record call { response_hook = some hook }

  abbrev with_params : Params → HttpCall H → HttpCall H
  with_params ps call =
      let request : HttpRequest = record call.request { path_params = ps } in
      record call { request = request }

  abbrev run_match :
      Clock → HttpServer H → HttpCall H → Option (RouteDefinition (Handler H) × Params) → HttpCall H
  run_match clock server call none = send_on clock (no_route server.router server.cors call) call
  run_match clock server call (some (r, ps)) =
      run_route r.middleware r.handler (with_params ps call)

  unfoldable pub run_call : Clock → HttpServer H → HttpCall H → HttpCall H
  unfolding method_eq find_route no_route send run_route
  run_call clock server call =
      let hooked = with_hook_of server.on_request_complete call in
      let ready : HttpCall H =
        if method_eq call.request.method head
        then record hooked { suppress_body = true }
        else hooked in
      run_match clock server ready
        (find_route server.router (method_to_match call.request.method) call.request.route)

  abbrev answer_call : Clock → HttpServer H → Option Cors → HttpCall H → HttpCall H
  answer_call clock server none call = run_call clock server call
  answer_call clock server (some cors) call =
      if method_eq call.request.method options
      then handle_preflight clock cors call
      else run_call clock server call

  -- From the request that was read
  unfoldable pub handle_call : Clock → HttpServer H → HttpCall H → Finished
  unfolding header keeps_alive set_keep_alive method_eq handle_preflight run_call finish
  handle_call clock server call =
      let keep_alive = keeps_alive (header (codes "connection") call) in
      let ready =
        with_connection (set_keep_alive keep_alive server.keep_alive_timeout call.connection)
          call in
      finish (answer_call clock server server.cors ready) keep_alive

  abbrev pub handle_read :
      Clock → HttpServer H → Bytes → Outcome (Option HttpRequest) × Connection → Option Finished
  handle_read clock server request_id (ok (some r), c) =
      some (handle_call clock server (new_call c r request_id))
  handle_read clock server request_id (ok none, c) = some (closed c)
  handle_read clock server request_id (err e, c) =
      some (closed (refuse_request clock request_id e c))
  handle_read clock server request_id (panic, c) = none

  -- `none` is a panic.
  unfoldable pub handle_single_request :
      Clock → HttpServer H → IpAddr → Bytes → Connection → Option Finished
  unfolding read_request new_call handle_call refuse_request
  handle_single_request clock server peer request_id c =
      handle_read clock server request_id (read_request peer server.max_body_size c)
