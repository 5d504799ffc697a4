-- ===== src/ServerBuilder.antt =====
-- `HttpServerBuilder` of src/server.rs. The operating system binds the listeners, and rustls makes the
-- acceptor: both are parameters. A duration is its seconds; the routes of the macros, which `inventory`
-- collects, are given to `new`.
pub mod Built
pub mod Tests
use mhttp.Common.{
  ℕ, zero, suc, ◌+◌, ◌*◌, Bool, true, false, Option, none, some, List, [], ◌∷◌, ◌++◌, ◌⊎◌, inl, inr,
}
use mhttp.Cors.{Cors}
use mhttp.ActiveSet.{System, new_with_telemetry}
use mhttp.Router.{RouteDefinition, build}
use mhttp.Server.{Handler, HttpServer, is_found}

-- The errors; `E` is the type of those of TLS.
pub data HttpServerError (E : Type 0) : Type 0 where
  addr_in_use : ℕ → HttpServerError E
  tls : E → HttpServerError E

pub data Tried (E : Type 0) (A : Type 0) : Type 0 where
  ok : A → Tried E A
  err : HttpServerError E → Tried E A

infixl 5 ◌>>=◌
abbrev pub ◌>>=◌ : {E A B : Type 0} → Tried E A → (A → Tried E B) → Tried E B
ok a >>= f = f a
err e >>= f = err e

-- `L` are listeners, `T` a configuration of TLS, `A` an acceptor: how many cores there are, the
-- listener of each on a port, if it can be bound, and what a configuration builds
pub record Platform (E L T A : Type 0) : Type 0 where
  pub available_parallelism : Option ℕ
  pub bind : ℕ → ℕ → Option L
  pub build_tls : T → E ⊎ A

pub record HttpServerBuilder (H T : Type 0) : Type 0 where
  pub port : ℕ
  pub cors : Option Cors
  pub tls_config : Option T
  pub request_timeout : ℕ
  pub keep_alive_timeout : ℕ
  pub max_body_size : ℕ
  pub on_request_complete : Option H
  pub router : List (RouteDefinition (Handler H))
  pub restart_stability_window : ℕ
  pub restart_pre_hook_timeout : ℕ

-- `HttpServer` with the fields that one request does not use
pub record Listening (H L A Key Info : Type 0) : Type 0 where
  pub server : HttpServer H
  pub listeners : List L
  pub active_requests : System Key Info
  pub acceptor : Option A
  pub request_timeout : ℕ
  pub restart_stability_window : ℕ
  pub restart_pre_hook_timeout : ℕ

-- The setters
pub data Setting (H T : Type 0) : Type 0 where
  cors : Cors → Setting H T
  tls_config : T → Setting H T
  request_timeout : ℕ → Setting H T
  keep_alive_timeout : ℕ → Setting H T
  max_body_size : ℕ → Setting H T
  on_request_complete : H → Setting H T
  route : RouteDefinition (Handler H) → Setting H T
  restart_stability_window : ℕ → Setting H T
  restart_pre_hook_timeout : ℕ → Setting H T

module _ {H T : Type 0} where
  unfoldable pub new : List (RouteDefinition (Handler H)) → ℕ → HttpServerBuilder H T
  new inventory port = record {
    port = port;
    cors = none;
    tls_config = none;
    request_timeout = 60;
    keep_alive_timeout = 75;
    max_body_size = 10 * 1024 * 1024;
    on_request_complete = none;
    router = inventory;
    restart_stability_window = 5;
    restart_pre_hook_timeout = 30;
  }

  unfoldable pub set : Setting H T → HttpServerBuilder H T → HttpServerBuilder H T
  set (cors c) b = record b { cors = some c }
  set (tls_config t) b = record b { tls_config = some t }
  set (request_timeout n) b = record b { request_timeout = n }
  set (keep_alive_timeout n) b = record b { keep_alive_timeout = n }
  set (max_body_size n) b = record b { max_body_size = n }
  set (on_request_complete h) b = record b { on_request_complete = some h }
  set (route r) b = record b { router = b.router ++ r ∷ [] }
  set (restart_stability_window n) b = record b { restart_stability_window = n }
  set (restart_pre_hook_timeout n) b = record b { restart_pre_hook_timeout = n }

  unfoldable pub set_all : List (Setting H T) → HttpServerBuilder H T → HttpServerBuilder H T
  unfolding set
  set_all [] b = b
  set_all (s ∷ ss) b = set_all ss (set s b)

abbrev pub push_listener : {L : Type 0} → L → Option (List L) → Option (List L)
push_listener l none = none
push_listener l (some ls) = some (l ∷ ls)

-- The loop over the cores, from the number of the next listener and how many are to come
unfoldable pub listen_all : {L : Type 0} → (ℕ → Option L) → ℕ → ℕ → Option (List L)
listen_all bind i zero = some []
listen_all bind i (suc n) = elim (bind i) [
  | none ↦ none
  | some l ↦ push_listener l (listen_all bind (suc i) n)
]

abbrev pub cores_of : Option ℕ → ℕ
cores_of none = 4
cores_of (some n) = n

-- `Some(tls_config.build()?)`
abbrev pub some_acceptor : {E A : Type 0} → E ⊎ A → Tried E (Option A)
some_acceptor (inl e) = err (tls e)
some_acceptor (inr a) = ok (some a)

abbrev pub acceptor_of : {E L T A : Type 0} → Platform E L T A → Option T → Tried E (Option A)
acceptor_of p none = ok none
acceptor_of p (some t) = some_acceptor (p.build_tls t)

abbrev pub server_of :
    {H L T A Key Info : Type 0}
    → HttpServerBuilder H T
    → List L
    → Option A
    → Listening H L A Key Info
server_of b listeners acceptor = record {
  server = record {
    cors = b.cors;
    router = build b.router;
    max_body_size = b.max_body_size;
    keep_alive_timeout = b.keep_alive_timeout;
    on_request_complete = b.on_request_complete;
  };
  listeners = listeners;
  active_requests = new_with_telemetry (is_found b.on_request_complete);
  acceptor = acceptor;
  request_timeout = b.request_timeout;
  restart_stability_window = b.restart_stability_window;
  restart_pre_hook_timeout = b.restart_pre_hook_timeout;
}

module _ {H E L T A Key Info : Type 0} where
  abbrev pub with_listeners :
      Platform E L T A
      → HttpServerBuilder H T
      → Option (List L)
      → Tried E (Listening H L A Key Info)
  with_listeners p b none = err (addr_in_use b.port)
  with_listeners p b (some listeners) =
      acceptor_of p b.tls_config >>= λ acceptor. ok (server_of b listeners acceptor)

  -- `HttpServerBuilder::build`
  unfoldable pub build_server :
      Platform E L T A → HttpServerBuilder H T → Tried E (Listening H L A Key Info)
  unfolding listen_all build
  build_server p b =
      with_listeners p b (listen_all (p.bind b.port) 0 (cores_of p.available_parallelism))
