-- ===== src/Server/Telemetry.antt =====
-- What `on_request_complete` is told of a request (src/server.rs): `RequestInfo`, and the hook that
-- `handle_single_request` gives to the response. A time is a number.
pub mod Tests
use mhttp.Common.{
  ℕ, ◌≡◌, refl, ap, ◌∙◌, Option, none, some, List, ◌∷◌, ◌++◌, Bytes, bytes_eq, bytes_eq_iff,
}
use mathlib.Core.Option
use mhttp.Method.{HttpMethod}
use mhttp.Response.Status.{HttpStatusCode}
use mhttp.ActiveSet.{Inner, Phase, held, Guard, System, Reachable}
use mhttp.ActiveSet.Entries.{get, update, value}
use mhttp.ActiveSet.Unique.{Unique}
use mhttp.ActiveSet.Held.{held-value}

pub record RequestInfo : Type 0 where
  pub id : Bytes
  pub route : Bytes
  pub method : HttpMethod
  pub response_status : Option HttpStatusCode
  pub started_at : ℕ
  pub ended_at : Option ℕ

-- `RequestInfo::new`
unfoldable pub new_info : Bytes → Bytes → HttpMethod → ℕ → RequestInfo
new_info id route method now = record {
  id = id;
  route = route;
  method = method;
  response_status = none;
  started_at = now;
  ended_at = none;
}

unfoldable pub set_response_status : HttpStatusCode → RequestInfo → RequestInfo
set_response_status status info = record info { response_status = some status }

unfoldable pub mark_as_end : ℕ → RequestInfo → RequestInfo
mark_as_end now info = record info { ended_at = some now }

-- The entries, once the hook has updated that of its guard
unfoldable pub completed :
    ℕ → Bytes → HttpStatusCode → Inner Bytes RequestInfo → Inner Bytes RequestInfo
unfolding update set_response_status mark_as_end
completed now id status inner =
    update bytes_eq id (λ info. mark_as_end now (set_response_status status info)) inner

-- The hook, which updates the entry and then reads it, each under the lock; between the two no other
-- thread changes the entry, since only its guard does. It gives the entries, and what
-- `on_request_complete` is called with, if it is called.
unfoldable pub on_sent :
    ℕ
    → Bytes
    → HttpStatusCode
    → Inner Bytes RequestInfo
    → Inner Bytes RequestInfo × Option RequestInfo
unfolding completed get set_response_status
on_sent now id status inner =
    let after = completed now id status inner in
    (after, Option.map (set_response_status status) (value bytes_eq id after))

-- In every interleaving of requests with different ids, where telemetry is on, the hook of a request that
-- holds its guard calls `on_request_complete`, with what the set knew of the request, and besides with
-- the status of its response and the time.
pub on_sent-told :
    (s : System Bytes RequestInfo) (m : List (Bytes × RequestInfo))
    (gs hs : List (Guard Bytes RequestInfo)) (id : Bytes) (n now : ℕ) (status : HttpStatusCode)
    → Reachable bytes_eq s
    → Unique s.guards
    → s.inner.map ≡ some m
    → s.guards ≡ gs ++ record { id = id; phase = held n } ∷ hs
    → (info : RequestInfo) × (get bytes_eq id s.inner ≡ some info)
      × ((on_sent now id status s.inner).1
          ≡ some (record info { response_status = some status; ended_at = some now }))
unfolding on_sent completed set_response_status mark_as_end
on_sent-told s m gs hs id n now status come unique telemetry place =
    let (info, known, updated) =
      held-value bytes_eq bytes_eq_iff s m gs hs id n come unique telemetry place in
    let told = updated (λ i. mark_as_end now (set_response_status status i)) in
    (info, known, ap (Option.map (set_response_status status)) told)
