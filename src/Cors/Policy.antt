-- ===== src/Cors/Policy.antt =====
-- What the policy of src/cors.rs lets through.
use mhttp.Common.{
  ◌≡◌, refl, sym, ◌∙◌, Bool, true, false, Option, none, some, List, Bytes, codes, arith,
  eq_ignore_ascii_case, Bool-cases, inl, inr, ◌⊎◌,
}
use mhttp.FieldLines.Fields
use mhttp.FieldLines.Fields.{Fields, get-set}
use mhttp.Response.Status.{no_content}
use mhttp.Response.{empty, HttpResponse, add_header_internal, set_status_code, or_empty}
use mhttp.Cors.{
  AllowedOrigin, any, only, Cors, in_list, allow_origin, add_if, add_allowed, add_for,
  add_cors_headers, refuse, allow, method_allowed, apply_for, apply_cors,
}

-- The origin that the policy answers with: the request's own, any, or none.
pub data Answer (c : Cors) : Option Bytes → Option Bytes → Type 0 where
  listed :
      (list : List Bytes) (o : Bytes)
      → c.allowed_origin ≡ only list
      → in_list o list ≡ true
      → Answer c (some o) (some o)
  echoed :
      (o : Bytes) → c.allowed_origin ≡ any → c.allow_credentials ≡ true → Answer c (some o) (some o)
  anyone :
      (o : Option Bytes)
      → c.allowed_origin ≡ any
      → (c.allow_credentials ≡ false) ⊎ (o ≡ none)
      → Answer c o (some (codes "*"))
  unlisted :
      (list : List Bytes) (o : Bytes)
      → c.allowed_origin ≡ only list
      → in_list o list ≡ false
      → Answer c (some o) none
  unnamed : (list : List Bytes) → c.allowed_origin ≡ only list → Answer c none none

answers :
    (c : Cors) (p : AllowedOrigin) (b : Bool) (o : Option Bytes)
    → c.allowed_origin ≡ p
    → c.allow_credentials ≡ b
    → Answer c o (allow_origin p b o)
unfolding allow_origin
answers c any true (some o) e f = echoed o e f
answers c any false (some o) e f = anyone (some o) e (inl f)
answers c any b none e f = anyone none e (inr refl)
answers c (only list) b (some o) e f = elim (Bool-cases (in_list o list)) [
  | inl found ↦ rw found (listed list o e found)
  | inr lost ↦ rw lost (unlisted list o e lost)
]
answers c (only list) b none e f = unnamed list e

abbrev origin_header : Bytes
origin_header = codes "access-control-allow-origin"

abbrev credentials_header : Bytes
credentials_header = codes "access-control-allow-credentials"

module _ {H : Type 0} where
  add_if_other :
      (t : Bool) (k v name : Bytes) (r : HttpResponse H)
      → eq_ignore_ascii_case k name ≡ false
      → Fields.get (add_if t k v r).field_lines name ≡ Fields.get r.field_lines name
  unfolding add_if add_header_internal
  add_if_other true k v name r e = get-set r.field_lines k v name ∙ rw e refl
  add_if_other false k v name r e = refl

  add_other :
      (k v name : Bytes) (r : HttpResponse H)
      → eq_ignore_ascii_case k name ≡ false
      → Fields.get (add_header_internal k v r).field_lines name ≡ Fields.get r.field_lines name
  unfolding add_header_internal
  add_other k v name r e = get-set r.field_lines k v name ∙ rw e refl

  add_new :
      (k v : Bytes) (r : HttpResponse H)
      → eq_ignore_ascii_case k k ≡ true
      → Fields.get r.field_lines k ≡ none
      → Fields.get (add_header_internal k v r).field_lines k ≡ some v
  unfolding add_header_internal
  add_new k v r same e = get-set r.field_lines k v k ∙ rw (same, e) refl

  get-add_allowed :
      (c : Cors) (allowed : Bytes) (r : HttpResponse H)
      → Fields.get r.field_lines origin_header ≡ none
      → Fields.get (add_allowed c allowed r).field_lines origin_header ≡ some allowed
  unfolding add_allowed eq_ignore_ascii_case
  get-add_allowed c allowed r fresh =
      add_if_other _ (codes "vary") _ origin_header _ refl
      ∙ add_if_other _ (codes "access-control-expose-headers") _ origin_header _ refl
      ∙ add_other (codes "access-control-allow-methods") _ origin_header _ refl
      ∙ add_if_other _ credentials_header _ origin_header _ refl
      ∙ add_new origin_header allowed r refl fresh

  get-add_for :
      (c : Cors) (o : Option Bytes) (r : HttpResponse H)
      → Fields.get r.field_lines origin_header ≡ none
      → Fields.get (add_for c o r).field_lines origin_header ≡ o
  unfolding add_for
  get-add_for c none r fresh = fresh
  get-add_for c (some allowed) r fresh = get-add_allowed c allowed r fresh

  -- The credentials header of a response that had none is there only by the policy.
  credentials_if :
      (c : Cors) (r : HttpResponse H) (v : Bytes)
      → Fields.get r.field_lines credentials_header ≡ none
      → Fields.get
          (add_if c.allow_credentials credentials_header (codes "true") r).field_lines
          credentials_header
        ≡ some v
      → c.allow_credentials ≡ true
  unfolding add_if
  credentials_if c r v fresh e = elim (Bool-cases c.allow_credentials) [
    | inl allowed ↦ allowed
    | inr forbidden ↦ let clash = rw forbidden at e in absurd (ground arith)
  ]

  credentials_allowed :
      (c : Cors) (o : Option Bytes) (r : HttpResponse H) (v : Bytes)
      → Fields.get r.field_lines credentials_header ≡ none
      → Fields.get (add_for c o r).field_lines credentials_header ≡ some v
      → c.allow_credentials ≡ true
  unfolding add_for add_allowed eq_ignore_ascii_case
  credentials_allowed c none r v fresh e = absurd (ground arith)
  credentials_allowed c (some allowed) r v fresh e =
      let first = add_header_internal origin_header allowed r in
      let still = add_other origin_header allowed credentials_header r refl ∙ fresh in
      let back = sym (
        add_if_other _ (codes "vary") _ credentials_header _ refl
        ∙ add_if_other _ (codes "access-control-expose-headers") _ credentials_header _ refl
        ∙ add_other (codes "access-control-allow-methods") _ credentials_header _ refl) in
      credentials_if c first v still (back ∙ e)

  -- A response that had no CORS headers answers a request as the policy says and in no other way: with
  -- the origin of the request where it is listed, or where any origin may come with credentials; with
  -- `*` where any may come, and there are no credentials or no origin; else with no origin. The header
  -- for credentials is there only if the policy allows them.
  pub add_cors_headers-Answer :
      (c : Cors) (origin : Option Bytes) (r : HttpResponse H)
      → Fields.get r.field_lines origin_header ≡ none
      → Fields.get r.field_lines credentials_header ≡ none
      → Answer c origin (Fields.get (add_cors_headers c origin r).field_lines origin_header)
        × ((v : Bytes)
            → Fields.get (add_cors_headers c origin r).field_lines credentials_header ≡ some v
            → c.allow_credentials ≡ true)
  unfolding add_cors_headers
  add_cors_headers-Answer c origin r fresh no_credentials =
      let o = allow_origin c.allowed_origin c.allow_credentials origin in
      (
        rw (get-add_for c o r fresh)
            (answers c c.allowed_origin c.allow_credentials origin refl refl),
        λ v e. credentials_allowed c o r v no_credentials e,
      )

  -- What a preflight is answered with: no content, and an origin only if the method is allowed.
  abbrev pub Preflight : Cors → Option Bytes → Option Bytes → HttpResponse H → Type 0
  Preflight c request_method o s =
      (s.status_code ≡ no_content)
      × (s.body ≡ none)
      × ((v : Bytes)
          → Fields.get s.field_lines origin_header ≡ some v
          → (o ≡ some v) × (method_allowed c request_method ≡ true))

  refused :
      (c : Cors) (m o : Option Bytes) (r : HttpResponse H)
      → Fields.get r.field_lines origin_header ≡ none
      → (s : HttpResponse H) × (refuse true r ≡ some s) × Preflight c m o s
  unfolding refuse empty set_status_code
  refused c m o r fresh =
      (empty (set_status_code no_content r), refl, (refl, refl, λ v e. absurd (ground arith)))

  add_if_status :
      (t : Bool) (k v : Bytes) (r : HttpResponse H) → (add_if t k v r).status_code ≡ r.status_code
  unfolding add_if add_header_internal
  add_if_status true k v r = refl
  add_if_status false k v r = refl

  add_status :
      (k v : Bytes) (r : HttpResponse H) → (add_header_internal k v r).status_code ≡ r.status_code
  unfolding add_header_internal
  add_status k v r = refl

  allow_status :
      (c : Cors) (allowed headers : Bytes) (r : HttpResponse H)
      → (allow c allowed headers true r).status_code ≡ no_content
  unfolding allow
  allow_status c allowed headers r =
      add_if_status _ _ _ _
      ∙ add_if_status _ _ _ _
      ∙ add_if_status _ _ _ _
      ∙ add_if_status _ _ _ _
      ∙ add_status _ _ _
      ∙ add_if_status _ _ _ _
      ∙ add_status _ _ _

  allow-origin_header :
      (c : Cors) (allowed headers : Bytes) (r : HttpResponse H)
      → Fields.get r.field_lines origin_header ≡ none
      → Fields.get (allow c allowed headers true r).field_lines origin_header ≡ some allowed
  unfolding allow eq_ignore_ascii_case
  allow-origin_header c allowed headers r fresh =
      add_if_other _ (codes "access-control-expose-headers") _ origin_header _ refl
      ∙ add_if_other _ (codes "vary") _ origin_header _ refl
      ∙ add_if_other _ (codes "access-control-max-age") _ origin_header _ refl
      ∙ add_if_other _ (codes "access-control-allow-headers") _ origin_header _ refl
      ∙ add_other (codes "access-control-allow-methods") _ origin_header _ refl
      ∙ add_if_other _ credentials_header _ origin_header _ refl
      ∙ add_new origin_header allowed _ refl fresh

  allowed-Preflight :
      (c : Cors) (m : Option Bytes) (allowed headers : Bytes) (r : HttpResponse H)
      → Fields.get r.field_lines origin_header ≡ none
      → method_allowed c m ≡ true
      → Preflight c m (some allowed) (allow c allowed headers true r)
  unfolding allow empty
  allowed-Preflight c m allowed headers r fresh may = (
    allow_status c allowed headers r,
    refl,
    λ v e. (sym (allow-origin_header c allowed headers r fresh) ∙ e, may),
  )

  apply_for-Preflight :
      (c : Cors) (m : Option Bytes) (o : Option Bytes) (headers : Bytes) (r : HttpResponse H)
      → Fields.get r.field_lines origin_header ≡ none
      → (s : HttpResponse H) × (apply_for c o m headers true r ≡ some s) × Preflight c m o s
  unfolding apply_for
  apply_for-Preflight c m none headers r fresh = refused c m none r fresh
  apply_for-Preflight c m (some allowed) headers r fresh = elim (Bool-cases (method_allowed c m)) [
    | inl may ↦ (
      allow c allowed headers true r,
      rw may refl,
      allowed-Preflight c m allowed headers r fresh may,
    )
    | inr may_not ↦ let (s, ran, p) = refused c m (some allowed) r fresh in (s, rw may_not ran, p)
  ]

  -- A preflight is always answered, with no content and no body; the answer names an origin only if the
  -- policy answers the request with that origin and has the method that the request asks for.
  pub apply_cors-Preflight :
      (c : Cors) (origin m headers : Option Bytes) (r : HttpResponse H)
      → Fields.get r.field_lines origin_header ≡ none
      → (s : HttpResponse H) × (apply_cors c origin m headers true r ≡ some s)
        × Preflight c m (allow_origin c.allowed_origin c.allow_credentials origin) s
        × Answer c origin (allow_origin c.allowed_origin c.allow_credentials origin)
  unfolding apply_cors
  apply_cors-Preflight c origin m headers r fresh =
      let o = allow_origin c.allowed_origin c.allow_credentials origin in
      let (s, ran, p) = apply_for-Preflight c m o (or_empty headers) r fresh in
      (s, ran, p, answers c c.allowed_origin c.allow_credentials origin refl refl)
