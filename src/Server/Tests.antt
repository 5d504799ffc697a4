-- ===== src/Server/Tests.antt =====
-- A server with two routes, on concrete connections.
use mhttp.Common.{
  ℕ, ◌≡◌, refl, true, false, codes, [], ◌∷◌, ◌++◌, none, arith, append-nil, take, drop, inl, inr,
  to_ascii_lowercase, eq_ignore_ascii_case, contains,
}
use mathlib.Core.Path.{subst}
use mhttp.Common.Decimal.{parse_decimal}
use mhttp.Method
use mhttp.Method.{to_string, method_eq}
use mhttp.Input.{received}
use mhttp.Input.Reads.{whole, arriving}
use mhttp.FieldLines.Fields
use mhttp.FieldLines.Fields.{Fields}
use mhttp.Router.{RouteDefinition, build, parse_segments, strip_query, next_segment}
use mhttp.Router.Held.{Fits, literal, finish, In}
use mhttp.Request.{v4, content_length_of, is_chunked_of, make_request}
use mhttp.Request.Lines.{request_line}
use mhttp.Request.Parsing.{request_head}
use mhttp.Request.Tests.{posted, posted-IsWritable}
use mhttp.Response.Status.{method_not_allowed}
use mhttp.Connection.{Connection, new_connection}
use mhttp.Connection.Reading.{Prompt}
use mhttp.Connection.Tests.{asked-IsHead}
use mhttp.Call.{HttpCall, new_call, response}
use mhttp.Server.{
  Clock, Handler, HttpServer, send_on, has_method, allowed_methods, no_route, keeps_alive,
}
use mhttp.Server.Sending.{send-input, send-broken}
use mhttp.Server.Turns.{Quiet, QuietRoute}
use mhttp.Server.Conversations.{
  Asking, IsAsking, written, Before, handle_connection, handle_connection-ended, unfinished, ended,
}
use mhttp.Server.Barrier.{ThreadDrainBarrier, Step, Reachable, lost, wait_all_done-lost}
use mhttp.Server.Refusals.{no_route-offers}

abbrev pub clock : Clock
clock = record {
  format = λ now. codes "today";
  now_secs = 5;
  now = 5;
  cache = record { secs = 0; text = [] };
}

-- A handler that responds with no body
abbrev respond : Handler ℕ
respond call = send_on clock (response call).0 call

respond-Quiet : Quiet respond
respond-Quiet call = record {
  input = send-input clock _ call.connection;
  state = refl;
  broken = send-broken clock _ call.connection;
}

abbrev pub route_a : RouteDefinition (Handler ℕ)
route_a = record { pattern = codes "/a"; method = Method.get; handler = respond; middleware = [] }

abbrev server : HttpServer ℕ
server = record {
  cors = none;
  router = build (route_a ∷ []);
  max_body_size = 20;
  keep_alive_timeout = 75;
  on_request_complete = none;
}

route_a-Quiet : QuietRoute route_a
route_a-Quiet = (tt, respond-Quiet)

routes-Quiet : (r : RouteDefinition (Handler ℕ)) → In r (route_a ∷ []) → QuietRoute r
routes-Quiet r (inl same) = subst (λ x. QuietRoute x) same route_a-Quiet
routes-Quiet r (inr none_left) = absurd none_left

abbrev asked : Connection
asked =
    let bytes = request_head Method.post (codes "/a") (codes "HTTP/1.1") posted in
    new_connection false (
      received (take 20 bytes)
      ∷ received (drop 20 bytes ++ codes "hello w")
      ∷ received (codes "orld!GET")
      ∷ [])

abbrev call : HttpCall ℕ
call =
    new_call asked (make_request (Method.post, codes "/a", codes "HTTP/1.1") [] (v4 1) 20)
      (codes "id")

a-Fits : Fits (parse_segments route_a.pattern) (strip_query (codes "/a")) []
unfolding parse_segments strip_query next_segment
a-Fits = literal refl (finish refl)

no_route-offers_example :
    (has_method Method.get (allowed_methods (build (route_a ∷ [])) (codes "/a")) ≡ true)
    × ((no_route (build (route_a ∷ [])) none call).status_code ≡ method_not_allowed)
unfolding new_call make_request has_method method_eq
no_route-offers_example = no_route-offers [] route_a [] none call [] tt a-Fits refl

wait_all_done-lost_example : Reachable 4 lost × ((b : ThreadDrainBarrier) → ¬ Step lost b)
wait_all_done-lost_example = wait_all_done-lost 3

abbrev twice : Asking
twice = record {
  method = Method.post;
  route = codes "/a";
  version = codes "HTTP/1.1";
  fields = posted;
  content = codes "hello world!";
}

twice-IsAsking : IsAsking server twice
unfolding content_length_of is_chunked_of parse_decimal keeps_alive Fields.get eq_ignore_ascii_case
    to_ascii_lowercase contains
twice-IsAsking = record {
  writable = posted-IsWritable;
  head = asked-IsHead;
  ordinary = record { length_of = refl; within = omega arith; plain = refl; alive = refl };
}

abbrev asks_twice : Connection
asks_twice = new_connection false (received (written (twice ∷ twice ∷ [])) ∷ [])

asks_twice-Before : Before (written (twice ∷ twice ∷ [])) asks_twice
unfolding whole arriving Prompt written request_head request_line to_string new_connection
asks_twice-Before = record { bytes = append-nil _; prompt = tt; sound = refl }

handle_connection-ended_example :
    ((d : Connection) × Before [] d
      × (handle_connection server (v4 1) ((clock, codes "1") ∷ (clock, codes "2") ∷ []) asks_twice
          ≡ unfinished d))
    × ((d : Connection) × (handle_connection server
            (v4 1)
            ((clock, codes "1") ∷ (clock, codes "2") ∷ (clock, codes "3") ∷ [])
            asks_twice
          ≡ ended d))
handle_connection-ended_example =
    handle_connection-ended server (route_a ∷ []) (v4 1) (twice ∷ twice ∷ [])
      ((clock, codes "1") ∷ (clock, codes "2") ∷ []) (clock, codes "3") asks_twice refl routes-Quiet
      (twice-IsAsking, (twice-IsAsking, tt)) refl asks_twice-Before
