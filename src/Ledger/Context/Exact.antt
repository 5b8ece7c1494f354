-- ===== src/Ledger/Context/Exact.antt =====
-- The contexts that the guard takes (packages/ledger-gate/src/clear-signing-context.ts), without its
-- tests.
use rovaulta.Ledger.Context.{
  TypedDataClearSignContext, TypedDataContext, same_fields, has_path, same_paths,
  has_exact_display_filters, get_typed_data_filters, success, not_success, deployment_intent_fields,
  names,
}
use mathlib.Core.List.Perm
use mathlib.Core.List.{Perm}
use rovaulta.Prelude.{
  Str, List, Any, All, Option, ◌≡◌, none, length, some, true, false, arith, refl, [], ◌∷◌, ap, sym,
  inl, inr, Bool-cases, str_eq, eq_of_str_eq,
}
use rovaulta.Prelude.Sort.{sort, sort-perm, All-sort}
use rovaulta.Simulation.Parse.{code_units_le}

-- There is a filter of this name, and its path is the name.
abbrev pub HasFilter : List (Str × Str) → Str → Type 0
HasFilter shown name = Any (λ (f : Str × Str). (f.0 ≡ name) × (f.1 ≡ name)) shown

-- The device shows each field of an intent under its own path, and no other.
abbrev pub ShowsFields : TypedDataClearSignContext → Type 0
ShowsFields not_success = ⊥
ShowsFields (success count shown) =
    (count ≡ length deployment_intent_fields)
    × Perm (names shown) (names deployment_intent_fields)
    × All (HasFilter shown) (names deployment_intent_fields)

-- The registry's contract on the Sepolia chain, the fields of an intent, and filters for all of
-- them.
pub record IsExactContext (lower : Str → Str) (contract : Str) (context : TypedDataContext)
    (result : TypedDataClearSignContext) : Type 0 where
  pub chain : context.chain_id ≡ 11155111
  pub registry : lower context.verifying_contract ≡ lower contract
  pub schema : context.deployment_intent ≡ some deployment_intent_fields
  pub shows : ShowsFields result

same_fields-eq : (fs gs : List (Str × Str)) → same_fields fs gs ≡ true → fs ≡ gs
same_fields-eq [] [] h = refl
same_fields-eq [] (g ∷ gs) h = cc
same_fields-eq (f ∷ fs) [] h = cc
same_fields-eq (f ∷ fs) (g ∷ gs) h =
    let a = eq_of_str_eq (f.0) (g.0) (ground arith) in
    let b = eq_of_str_eq (f.1) (g.1) (ground arith) in
    let c = same_fields-eq fs gs (ground arith) in λ i. (a i, b i) ∷ c i

schema_lem :
    (fs : Option (List (Str × Str)))
    → (elim fs [ none ↦ false | some actual ↦ same_fields actual deployment_intent_fields ]) ≡ true
    → fs ≡ some deployment_intent_fields
schema_lem none h = cc
schema_lem (some fs) h = ap some (same_fields-eq fs deployment_intent_fields h)

has_path-HasFilter :
    (shown : List (Str × Str)) (p : Str) → has_path shown p ≡ true → HasFilter shown p
has_path-HasFilter [] p h = cc
has_path-HasFilter (f ∷ fs) p h = elim (Bool-cases (str_eq (f.0) p)) [
  | inl e ↦
      let q : str_eq (f.1) p ≡ true = rw (e, has_path) at h in
      Any.head (eq_of_str_eq (f.0) p e, eq_of_str_eq (f.1) p q)
  | inr e ↦ Any.tail (has_path-HasFilter fs p (rw (e, has_path) at h))
]

same_paths_lem :
    (shown : List (Str × Str)) (ps qs : List Str)
    → same_paths shown ps qs ≡ true
    → (ps ≡ qs) × All (HasFilter shown) qs
same_paths_lem shown [] [] h = (refl, tt)
same_paths_lem shown [] (q ∷ qs) h = cc
same_paths_lem shown (p ∷ ps) [] h = cc
same_paths_lem shown (p ∷ ps) (q ∷ qs) h =
    let e = eq_of_str_eq p q (ground arith) in
    let f = has_path-HasFilter shown q (ground arith) in
    let (rest, found) = same_paths_lem shown ps qs (ground arith) in
    ((λ i. e i ∷ rest i), (f, found))

shows_lem :
    (result : TypedDataClearSignContext)
    → has_exact_display_filters result ≡ true
    → ShowsFields result
unfolding has_exact_display_filters
shows_lem not_success h = cc
shows_lem (success count shown) h =
    let own = names shown in
    let (same, found) =
      same_paths_lem shown (sort code_units_le own)
        (sort code_units_le (names deployment_intent_fields)) (ground arith) in
    let perm : Perm (sort code_units_le own) (names deployment_intent_fields) =
      rw (sym same) at (sort-perm code_units_le (names deployment_intent_fields)) in
    (
      ground arith,
      Perm.trans (Perm.symm (sort-perm code_units_le own)) perm,
      All-sort code_units_le (HasFilter shown) (names deployment_intent_fields) found,
    )

pub get_typed_data_filters-IsExactContext :
    (lower : Str → Str) (contract : Str) (context : TypedDataContext)
    (result : TypedDataClearSignContext)
    → get_typed_data_filters lower contract context result ≡ true
    → IsExactContext lower contract context result
unfolding get_typed_data_filters
get_typed_data_filters-IsExactContext lower contract context result h = record {
  chain = ground arith;
  registry = eq_of_str_eq (lower context.verifying_contract) (lower contract) (ground arith);
  schema = schema_lem context.deployment_intent (ground arith);
  shows = shows_lem result (ground arith);
}
