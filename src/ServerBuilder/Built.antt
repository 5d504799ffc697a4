-- ===== src/ServerBuilder/Built.antt =====
-- What `HttpServerBuilder::build` of src/server.rs gives for what was set.
use mhttp.Common.{
  ℕ, zero, suc, ◌+◌, ◌<◌, ◌≡◌, ◌≢◌, ◌⊎◌, ◌↔◌, refl, sym, ap, ◌∙◌, Option, none, some, List, [], ◌∷◌,
  ◌++◌, length, append_assoc, append-nil, arith, Option-cases, inl, inr,
}
use mathlib.Core.Path.{subst}
use mhttp.Router.{RouteDefinition, build}
use mhttp.Server.{Handler}
use mhttp.ServerBuilder.{
  Tried, ok, err, addr_in_use, Platform, HttpServerBuilder, Listening, new, Setting, cors, route,
  set, set_all, listen_all, cores_of, with_listeners, build_server, acceptor_of, some_acceptor,
  server_of, ◌>>=◌,
}

module _ {H T : Type 0} where
  -- The routes among the settings, in order
  unfoldable pub routes_in : List (Setting H T) → List (RouteDefinition (Handler H))
  routes_in [] = []
  routes_in (route r ∷ ss) = r ∷ routes_in ss
  routes_in (s ∷ ss) = routes_in ss

  set_all-routes :
      (ss : List (Setting H T)) (b : HttpServerBuilder H T)
      → (set_all ss b).router ≡ b.router ++ routes_in ss
  unfolding set_all set routes_in
  set_all-routes [] b = sym (append-nil b.router)
  set_all-routes (route r ∷ ss) b =
      set_all-routes ss (set (route r) b) ∙ append_assoc b.router (r ∷ []) (routes_in ss)
  set_all-routes (s ∷ ss) b = set_all-routes ss (set s b)

  set_all-port :
      (ss : List (Setting H T)) (b : HttpServerBuilder H T) → (set_all ss b).port ≡ b.port
  unfolding set_all set
  set_all-port [] b = refl
  set_all-port (cors c ∷ ss) b = set_all-port ss (set (cors c) b)
  set_all-port (s ∷ ss) b = set_all-port ss (set s b)

-- A listener that cannot be bound, among so many from a number on
abbrev pub Unbound : {L : Type 0} → (ℕ → Option L) → ℕ → ℕ → Type 0
Unbound bind i n = (k : ℕ) × (k < n) × (bind (i + k) ≡ none)

module _ {L : Type 0} (bind : ℕ → Option L) where
  listen_all-Unbound : (i n : ℕ) → listen_all bind i n ≡ none → Unbound bind i n
  unfolding listen_all
  listen_all-Unbound i zero h = absurd (cc)
  listen_all-Unbound i (suc n) h = elim (Option-cases (bind i)) [
    | inl e ↦ (0, omega arith, let same : i + 0 ≡ i = omega arith in ap bind same ∙ e)
    | inr (l, e) ↦ elim (Option-cases (listen_all bind (suc i) n)) [
      | inl rest ↦
          let (k, less, gone) = listen_all-Unbound (suc i) n rest in
          let same : i + suc k ≡ suc i + k = omega arith in
          (suc k, omega arith, ap bind same ∙ gone)
      | inr (ls, rest) ↦ absurd (ground arith)
    ]
  ]

  Unbound-listen_all : (i n : ℕ) → Unbound bind i n → listen_all bind i n ≡ none
  unfolding listen_all
  Unbound-listen_all i zero (k, less, gone) = absurd (omega arith)
  Unbound-listen_all i (suc n) (zero, less, gone) =
      let same : i + 0 ≡ i = omega arith in
      let first : bind i ≡ none = ap bind (sym same) ∙ gone in rw (first, listen_all) refl
  Unbound-listen_all i (suc n) (suc k, less, gone) =
      let same : suc i + k ≡ i + suc k = omega arith in
      let rest = Unbound-listen_all (suc i) n (k, omega arith, ap bind same ∙ gone) in
      elim (Option-cases (bind i)) [
        | inl e ↦ rw (e, listen_all) refl
        | inr (l, e) ↦ rw (e, rest, listen_all) refl
      ]

  listen_all-length : (i n : ℕ) (ls : List L) → listen_all bind i n ≡ some ls → length ls ≡ n
  unfolding listen_all
  listen_all-length i zero ls h = ground arith
  listen_all-length i (suc n) ls h = elim (Option-cases (bind i)) [
    | inl e ↦ absurd (ground arith)
    | inr (l, e) ↦ elim (Option-cases (listen_all bind (suc i) n)) [
      | inl rest ↦ absurd (ground arith)
      | inr (ms, rest) ↦
          let counted = listen_all-length (suc i) n ms rest in
          let same : l ∷ ms ≡ ls = ground arith in sym (ap length same) ∙ ap suc counted
    ]
  ]

some_acceptor-ne : {E A : Type 0} (x : E ⊎ A) (port : ℕ) → some_acceptor x ≢ err (addr_in_use port)
some_acceptor-ne (inl e) port h = cc
some_acceptor-ne (inr a) port h = cc

acceptor_of-ne :
    {E L T A : Type 0} (p : Platform E L T A) (o : Option T) (port : ℕ)
    → acceptor_of p o ≢ err (addr_in_use port)
acceptor_of-ne p none port h = cc
acceptor_of-ne p (some t) port h = some_acceptor-ne (p.build_tls t) port h

module _ {E A B : Type 0} (f : A → B) where
  bind-ne :
      (r : Tried E A) (port : ℕ)
      → r ≢ err (addr_in_use port)
      → (r >>= λ a. ok (f a)) ≢ err (addr_in_use port)
  bind-ne (ok a) port h e = cc
  bind-ne (err x) port h e = h (cc)

  bind-ok : (r : Tried E A) (b : B) → (r >>= λ a. ok (f a)) ≡ ok b → (a : A) × (f a ≡ b)
  bind-ok (ok a) b e = (a, cc)
  bind-ok (err x) b e = absurd (cc)

module _ {H E L T A Key Info : Type 0} where
  listeners-outcome :
      (p : Platform E L T A) (b : HttpServerBuilder H T) (o : Option (List L))
      → listen_all (p.bind b.port) 0 (cores_of p.available_parallelism) ≡ o
      → ((with_listeners {Key = Key} {Info = Info} p b o ≡ err (addr_in_use b.port))
          ↔ Unbound (p.bind b.port) 0 (cores_of p.available_parallelism))
        × ((s : Listening H L A Key Info)
            → with_listeners p b o ≡ ok s
            → (length s.listeners ≡ cores_of p.available_parallelism)
              × (s.server.router ≡ build b.router))
  listeners-outcome p b none e = (
    (λ h. listen_all-Unbound (p.bind b.port) 0 (cores_of p.available_parallelism) e, λ h. refl),
    λ s h. absurd (cc),
  )
  listeners-outcome p b (some ls) e = (
    (
      λ h. absurd (
          bind-ne (server_of b ls) (acceptor_of p b.tls_config) b.port
            (acceptor_of-ne p b.tls_config b.port) h),
      λ missing.
          let none_left =
            Unbound-listen_all (p.bind b.port) 0 (cores_of p.available_parallelism) missing in
          let clash : some ls ≡ none = sym e ∙ none_left in absurd (cc),
    ),
    λ s h.
        let (a, same) = bind-ok (server_of b ls) (acceptor_of p b.tls_config) s h in
        let counted = listen_all-length (p.bind b.port) 0 (cores_of p.available_parallelism) ls e in
        (sym (ap (λ x. length x.listeners) same) ∙ counted, sym (ap (λ x. x.server.router) same)),
  )

  -- Whatever was set, building fails because of the address exactly where one of the listeners, of which
  -- there is one for each core, cannot be bound to the port; and a server that is built has a listener
  -- for each core, and the router of the routes of the macros, and then those that were set, in order.
  pub build_server-outcome :
      (p : Platform E L T A) (inventory : List (RouteDefinition (Handler H))) (port : ℕ)
      (settings : List (Setting H T))
      → ((build_server {Key = Key} {Info = Info} p (set_all settings (new inventory port))
            ≡ err (addr_in_use port))
          ↔ Unbound (p.bind port) 0 (cores_of p.available_parallelism))
        × ((s : Listening H L A Key Info)
            → build_server p (set_all settings (new inventory port)) ≡ ok s
            → (length s.listeners ≡ cores_of p.available_parallelism)
              × (s.server.router ≡ build (inventory ++ routes_in settings)))
  unfolding build_server new
  build_server-outcome p inventory port settings =
      let b : HttpServerBuilder H T = set_all settings (new inventory port) in
      let same_port = set_all-port settings (new inventory port) in
      let routes = set_all-routes settings (new inventory port) in
      let (failed, built) = listeners-outcome p b _ refl in
      (
        subst
            (λ q.
              (build_server {Key = Key} {Info = Info} p b ≡ err (addr_in_use q))
              ↔ Unbound (p.bind q) 0 (cores_of p.available_parallelism))
            same_port failed,
        λ s h. let (n, r) = built s h in (n, r ∙ ap build routes),
      )
