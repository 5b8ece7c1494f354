-- ===== src/Agent/Catalog/Lookup/Unique.antt =====
-- An entry that is found is the only one that fits.
use rovaulta.Domain.Value.{Value}
use rovaulta.Errors.{ok, ok-injective, bind_parts}
use rovaulta.Agent.Catalog.Lookup.{filter_entries, only_match, resolve, has_aliases, str_eq}
use rovaulta.Agent.Catalog.{
  DeploymentCatalogEntry, List, Bool, [], true, false, TextRuntime, ok, Value, normalize_reference,
  any,
}
use rovaulta.Prelude.{
  Str, List, Bool, Any, ◌≡◌, [], ◌∷◌, All, true, Bool-cases, false, inl, inr, All-map, sym, ◌∙◌, ap,
  arith, any, str_eq, eq_of_str_eq, str_eq_of_eq, refl,
}

-- The entry is one of the list.
abbrev pub IsIn : DeploymentCatalogEntry → List DeploymentCatalogEntry → Type 0
IsIn e es = Any (λ x. x ≡ e) es

-- The three names are aliases of the entry's site, robot and build.
abbrev pub HasAliases : Str → Str → Str → DeploymentCatalogEntry → Type 0
HasAliases site robot build e =
    Any (λ a. a ≡ site) e.site_aliases
    × Any (λ a. a ≡ robot) e.robot_aliases
    × Any (λ a. a ≡ build) e.build_aliases

any-Any : (s : Str) (xs : List Str) → any (str_eq s) xs ≡ true → Any (λ a. a ≡ s) xs
any-Any s [] h = cc
any-Any s (x ∷ xs) h = elim (Bool-cases (str_eq s x)) [
  | inl e ↦ Any.head (sym (eq_of_str_eq s x e))
  | inr e ↦ Any.tail (any-Any s xs (ground arith))
]

Any-any : (s : Str) (xs : List Str) → Any (λ a. a ≡ s) xs → any (str_eq s) xs ≡ true
Any-any s [] h = elim h [ ]
Any-any s (x ∷ xs) (Any.head e) = rw (str_eq_of_eq s x (sym e)) refl
Any-any s (x ∷ xs) (Any.tail h) = ground (arith, Any-any s xs h)

has_aliases-HasAliases :
    (site robot build : Str) (e : DeploymentCatalogEntry)
    → has_aliases site robot build e ≡ true
    → HasAliases site robot build e
has_aliases-HasAliases site robot build e h = (
  any-Any site e.site_aliases (ground arith),
  any-Any robot e.robot_aliases (ground arith),
  any-Any build e.build_aliases (ground arith),
)

HasAliases-has_aliases :
    (site robot build : Str) (e : DeploymentCatalogEntry)
    → HasAliases site robot build e
    → has_aliases site robot build e ≡ true
HasAliases-has_aliases site robot build e (a, b, c) =
    rw
      (
        Any-any site e.site_aliases a,
        Any-any robot e.robot_aliases b,
        Any-any build e.build_aliases c,
      )
      refl

filter_none :
    (test : DeploymentCatalogEntry → Bool) (es : List DeploymentCatalogEntry)
    → filter_entries test es ≡ []
    → All (λ x. test x ≡ false) es
filter_none test [] h = tt
filter_none test (x ∷ xs) h = elim (Bool-cases (test x)) [
  | inl e ↦ absurd (let q : x ∷ filter_entries test xs ≡ [] = rw e at h in cc)
  | inr e ↦ (e, filter_none test xs (rw e at h))
]

filter_one :
    (test : DeploymentCatalogEntry → Bool) (es : List DeploymentCatalogEntry)
    (e : DeploymentCatalogEntry)
    → filter_entries test es ≡ e ∷ []
    → (test e ≡ true) × IsIn e es × All (λ x. test x ≡ true → x ≡ e) es
filter_one test [] e h = absurd (let q : [] ≡ e ∷ [] = h in cc)
filter_one test (x ∷ xs) e h = elim (Bool-cases (test x)) [
  | inl t ↦
      let q : x ∷ filter_entries test xs ≡ e ∷ [] = rw t at h in
      let same : x ≡ e = cc in
      let rest : filter_entries test xs ≡ [] = cc in
      (
        rw same at t,
        Any.head same,
        (
          (λ k. same),
          All-map (λ y f k. absurd (let z = sym f ∙ k in cc)) xs (filter_none test xs rest),
        ),
      )
  | inr t ↦
      let (a, b, c) = filter_one test xs e (rw t at h) in
      (a, Any.tail b, ((λ k. absurd (let z = sym t ∙ k in cc)), c))
]

only_match_lem :
    (es : List DeploymentCatalogEntry) (e : DeploymentCatalogEntry)
    → only_match es ≡ ok e
    → es ≡ e ∷ []
only_match_lem [] e h = cc
only_match_lem (x ∷ []) e h = ap (λ y. y ∷ []) (ok-injective h)
only_match_lem (x ∷ y ∷ ys) e h = cc

module _ (text : TextRuntime) where
  -- The entry that `resolve` returns for three references is in the catalog, has them, normalized,
  -- among the aliases of its site, of its robot and of its build, and is the only entry of the
  -- catalog that does.
  pub resolve-IsIn :
      (entries : List DeploymentCatalogEntry) (v w u : Value) (e : DeploymentCatalogEntry)
      → resolve text entries v w u ≡ ok e
      → (site : Str) × (robot : Str) × (build : Str) × (normalize_reference text v ≡ ok site)
        × (normalize_reference text w ≡ ok robot)
        × (normalize_reference text u ≡ ok build)
        × HasAliases site robot build e
        × IsIn e entries
        × All (λ x. HasAliases site robot build x → x ≡ e) entries
  unfolding resolve
  resolve-IsIn entries v w u e h =
      let (site, e1, h1) = bind_parts (normalize_reference text v) _ h in
      let (robot, e2, h2) = bind_parts (normalize_reference text w) _ h1 in
      let (build, e3, h3) = bind_parts (normalize_reference text u) _ h2 in
      let (a, b, c) = filter_one (has_aliases site robot build) entries e (only_match_lem _ e h3) in
      (
        site,
        robot,
        build,
        e1,
        e2,
        e3,
        has_aliases-HasAliases site robot build e a,
        b,
        All-map (λ x only k. only (HasAliases-has_aliases site robot build x k)) entries c,
      )
