-- ===== src/Agent/Catalog/Lookup/Requests.antt =====
-- The entry that a public request names.
use mathlib.Core.Path.{subst, sym}
use rovaulta.Domain.Value.{Value}
use rovaulta.Errors.{ok, bind_parts, ok-injective, >>-eq-ok, reject, agent, malformed_agent_request}
use rovaulta.Agent.Catalog.Lookup.{
  set_match, only_unique, resolve_public_request, str_eq, unique_matches, form_matches,
  request_matches,
}
use rovaulta.Agent.Catalog.{
  DeploymentCatalogEntry, TextRuntime, any, true, ◌∷◌, ok, Value, public_request_forms, [],
  normalize_public_deployment_request, reject, length, agent, malformed_agent_request,
}
use rovaulta.Agent.Catalog.Lookup.Unique.{IsIn}
use rovaulta.Prelude.{
  Str, List, Bool, ◌≡◌, All, any, ◌||◌, str_eq, true, ◌++◌, Bool-cases, str_eq_refl, All-append,
  Any, [], false, inl, ap, All-map, refl, inr, eq_of_str_eq, length, ◌==◌, sym, arith,
}

-- Whether an entry has a form of a request.
abbrev pub has_form : Str → DeploymentCatalogEntry → Bool
has_form request e = any (λ form. str_eq form request) (public_request_forms e)

abbrev has_key : Str → List DeploymentCatalogEntry → Bool
has_key k ms = any (λ (m : DeploymentCatalogEntry). str_eq m.key k) ms

set_match-keeps :
    (k : Str) (e : DeploymentCatalogEntry) (ms : List DeploymentCatalogEntry)
    → has_key k ms ≡ true
    → has_key k (set_match e ms) ≡ true
set_match-keeps k e [] h = cc
set_match-keeps k e (m ∷ ms) h = elim (Bool-cases (str_eq m.key e.key)) [
  | inl t ↦
      rw t (subst (λ (z : Str). (str_eq z k || has_key k ms) ≡ true) (eq_of_str_eq m.key e.key t) h)
  | inr t ↦ rw t (elim (Bool-cases (str_eq m.key k)) [
    | inl u ↦ rw u refl
    | inr u ↦ rw u (set_match-keeps k e ms (rw u at h))
  ])
]

or_true : (b : Bool) → (b || true) ≡ true
or_true true = refl
or_true false = refl

set_match-new :
    (e : DeploymentCatalogEntry) (ms : List DeploymentCatalogEntry)
    → has_key e.key (set_match e ms) ≡ true
set_match-new e [] = rw (str_eq_refl e.key) refl
set_match-new e (m ∷ ms) = elim (Bool-cases (str_eq m.key e.key)) [
  | inl t ↦ rw (t, str_eq_refl e.key) refl
  | inr t ↦ rw (t, set_match-new e ms) (or_true (str_eq m.key e.key))
]

unique_matches-keeps :
    (k : Str) (ms found : List DeploymentCatalogEntry)
    → has_key k found ≡ true
    → has_key k (unique_matches ms found) ≡ true
unique_matches-keeps k [] found h = h
unique_matches-keeps k (m ∷ ms) found h =
    unique_matches-keeps k ms (set_match m found) (set_match-keeps k m found h)

-- Every match has its key among the unique ones.
unique_matches-has :
    (ms found : List DeploymentCatalogEntry)
    → All (λ m. has_key m.key (unique_matches ms found) ≡ true) ms
unique_matches-has [] found = tt
unique_matches-has (m ∷ ms) found = (
  unique_matches-keeps m.key ms (set_match m found) (set_match-new m found),
  unique_matches-has ms (set_match m found),
)

module _ (P : DeploymentCatalogEntry → Type 0) where
  set_match-All :
      (e : DeploymentCatalogEntry) (ms : List DeploymentCatalogEntry)
      → P e
      → All P ms
      → All P (set_match e ms)
  set_match-All e [] p h = (p, tt)
  set_match-All e (m ∷ ms) p h = elim (Bool-cases (str_eq m.key e.key)) [
    | inl t ↦ rw t (p, h.1)
    | inr t ↦ rw t (h.0, set_match-All e ms p (h.1))
  ]

  unique_matches-All :
      (ms found : List DeploymentCatalogEntry)
      → All P ms
      → All P found
      → All P (unique_matches ms found)
  unique_matches-All [] found h k = k
  unique_matches-All (m ∷ ms) found h k =
      unique_matches-All ms (set_match m found) (h.1) (set_match-All m found (h.0) k)

  form_matches-All :
      (request : Str) (e : DeploymentCatalogEntry) (forms : List Str)
      → (any (λ form. str_eq form request) forms ≡ true → P e)
      → All P (form_matches request e forms)
  form_matches-All request e [] h = tt
  form_matches-All request e (form ∷ forms) h = elim (Bool-cases (str_eq form request)) [
    | inl t ↦ rw t (h (rw t refl), form_matches-All request e forms (λ k. h (rw t refl)))
    | inr t ↦ rw t (form_matches-All request e forms (λ k. h (rw (t, k) refl)))
  ]

  request_matches-All :
      (request : Str) (es : List DeploymentCatalogEntry)
      → All (λ e. has_form request e ≡ true → P e) es
      → All P (request_matches request es)
  request_matches-All request [] h = tt
  request_matches-All request (e ∷ es) h =
      All-append P _ _ (form_matches-All request e (public_request_forms e) (h.0))
        (request_matches-All request es (h.1))

  All-parts : (xs ys : List DeploymentCatalogEntry) → All P (xs ++ ys) → All P xs × All P ys
  All-parts [] ys h = (tt, h)
  All-parts (x ∷ xs) ys h = let (a, b) = All-parts xs ys (h.1) in ((h.0, a), b)

  -- The converse: what holds of every match holds of every entry with the form.
  form_matches-some :
      (request : Str) (e : DeploymentCatalogEntry) (forms : List Str)
      → All P (form_matches request e forms)
      → any (λ form. str_eq form request) forms ≡ true
      → P e
  form_matches-some request e [] h k = cc
  form_matches-some request e (form ∷ forms) h k = elim (Bool-cases (str_eq form request)) [
    | inl t ↦ let q : All P (e ∷ form_matches request e forms) = rw t at h in q.0
    | inr t ↦ form_matches-some request e forms (rw t at h) (rw t at k)
  ]

  request_matches-some :
      (request : Str) (es : List DeploymentCatalogEntry)
      → All P (request_matches request es)
      → All (λ e. has_form request e ≡ true → P e) es
  request_matches-some request [] h = tt
  request_matches-some request (e ∷ es) h =
      let (a, b) =
        All-parts (form_matches request e (public_request_forms e)) (request_matches request es)
          h in
      (form_matches-some request e (public_request_forms e) a, request_matches-some request es b)

only_unique_lem :
    (es : List DeploymentCatalogEntry) (e : DeploymentCatalogEntry)
    → only_unique es ≡ ok e
    → es ≡ e ∷ []
only_unique_lem [] e h = cc
only_unique_lem (x ∷ []) e h = ap (λ y. y ∷ []) (ok-injective h)
only_unique_lem (x ∷ y ∷ ys) e h = cc

-- An entry of the catalog with the form.
abbrev IsMatch : Str → List DeploymentCatalogEntry → DeploymentCatalogEntry → Type 0
IsMatch request entries e = IsIn e entries × (has_form request e ≡ true)

All-IsIn : (es : List DeploymentCatalogEntry) → All (λ e. IsIn e es) es
All-IsIn [] = tt
All-IsIn (e ∷ es) = (Any.head refl, All-map (λ x k. Any.tail k) es (All-IsIn es))

module _ (text : TextRuntime) where
  -- The entry that `resolvePublicRequest` returns is in the catalog and has the normalized request
  -- among its forms, and every entry of the catalog with that form has its key.
  pub resolve_public_request-IsIn :
      (entries : List DeploymentCatalogEntry) (v : Value) (e : DeploymentCatalogEntry)
      → resolve_public_request text entries v ≡ ok e
      → (request : Str) × (normalize_public_deployment_request text v ≡ ok request)
        × IsIn e entries
        × (has_form request e ≡ true)
        × All (λ x. has_form request x ≡ true → x.key ≡ e.key) entries
  unfolding resolve_public_request
  resolve_public_request-IsIn entries v e h =
      let (request, e1, h1) = bind_parts (normalize_public_deployment_request text v) _ h in
      let ms = request_matches request entries in
      let (k, h2) = >>-eq-ok (reject (length ms == 0) (agent malformed_agent_request)) _ h1 in
      let one = only_unique_lem (unique_matches ms []) e h2 in
      let matches : All (IsMatch request entries) ms =
        request_matches-All (IsMatch request entries) request entries
          (All-map (λ x a b. (a, b)) entries (All-IsIn entries)) in
      let all_e : All (IsMatch request entries) (e ∷ []) =
        rw one at (unique_matches-All (IsMatch request entries) ms [] matches tt) in
      let keys : All (λ m. has_key m.key (e ∷ []) ≡ true) ms =
        rw one at (unique_matches-has ms []) in
      let same : All (λ m. m.key ≡ e.key) ms =
        All-map (λ m q. sym (eq_of_str_eq e.key m.key (ground arith))) ms keys in
      (
        request,
        e1,
        all_e.0.0,
        all_e.0.1,
        request_matches-some (λ m. m.key ≡ e.key) request entries same,
      )
