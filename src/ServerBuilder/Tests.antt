-- ===== src/ServerBuilder/Tests.antt =====
-- A server of two cores whose second listener is missing.
use mhttp.Common.{
  ℕ, ◌+◌, ◌≡◌, ◌↔◌, Bool, none, some, [], ◌∷◌, ◌++◌, length, inr, List, if◌then◌else◌, ◌==◌,
}
use mhttp.Router.{build}
use mhttp.Server.Tests.{route_a}
use mhttp.ServerBuilder.{
  Platform, Listening, new, Setting, ok, err, addr_in_use, set_all, build_server, route,
  max_body_size,
}
use mhttp.ServerBuilder.Built.{Unbound, routes_in, build_server-outcome}

abbrev platform : Platform Bool ℕ Bool Bool
platform = record {
  available_parallelism = some 2;
  bind = λ port i. if i == 1 then none else some (port + i);
  build_tls = λ t. inr t;
}

abbrev settings : List (Setting ℕ Bool)
settings = max_body_size 100 ∷ route route_a ∷ []

build_server-outcome_example :
    ((build_server {Key = ℕ} {Info = ℕ} platform (set_all settings (new [] 80))
        ≡ err (addr_in_use 80))
      ↔ Unbound (platform.bind 80) 0 2)
    × ((s : Listening ℕ ℕ Bool ℕ ℕ)
        → build_server platform (set_all settings (new [] 80)) ≡ ok s
        → (length s.listeners ≡ 2) × (s.server.router ≡ build ([] ++ routes_in settings)))
build_server-outcome_example = build_server-outcome platform [] 80 settings
