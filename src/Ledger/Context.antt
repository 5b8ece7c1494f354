-- ===== src/Ledger/Context.antt =====
-- The guard of the Clear Signing context (packages/ledger-gate/src/clear-signing-context.ts). The
-- vendor's context module is a parameter: what it answers is an argument.
pub mod Exact
use rovaulta.Simulation.Parse.{code_units_le}
use rovaulta.Prelude.Sort.{sort}
use rovaulta.Chain.Transport.{sepolia_chain_id}
use rovaulta.Prelude.{
  Str, List, Option, ℕ, Bool, codes, none, ◌∷◌, false, ◌&&◌, [], some, if◌then◌else◌, ◌==◌, true,
  str_eq, length,
}

-- `ROVAULTA_DEPLOYMENT_INTENT_TYPES.DeploymentIntent`: names and types
abbrev pub deployment_intent_fields : List (Str × Str)
deployment_intent_fields =
    (codes "protocolVersion", codes "string")
    ∷ (codes "schemaVersion", codes "string")
    ∷ (codes "action", codes "string")
    ∷ (codes "siteId", codes "string")
    ∷ (codes "robotId", codes "string")
    ∷ (codes "robotBuildId", codes "string")
    ∷ (codes "robotBuildDigest", codes "bytes32")
    ∷ (codes "clearanceId", codes "string")
    ∷ (codes "clearanceDigest", codes "bytes32")
    ∷ (codes "targetEnvironment", codes "string")
    ∷ (codes "authorizedSigner", codes "address")
    ∷ (codes "nonce", codes "string")
    ∷ (codes "issuedAt", codes "uint64")
    ∷ (codes "expiresAt", codes "uint64")
    ∷ (codes "protocolIntentDigest", codes "bytes32")
    ∷ []

-- `TypedDataContext`, of which the schema has the one type that is looked at.
pub record TypedDataContext : Type 0 where
  pub deployment_intent : Option (List (Str × Str))
  pub chain_id : ℕ
  pub verifying_contract : Str

-- `TypedDataClearSignContext`: the number of filters, and the filters, each with its path.
pub data TypedDataClearSignContext : Type 0 where
  success : ℕ → List (Str × Str) → TypedDataClearSignContext
  not_success : TypedDataClearSignContext

abbrev pub same_fields : List (Str × Str) → List (Str × Str) → Bool
same_fields [] [] = true
same_fields [] (f ∷ fs) = false
same_fields (f ∷ fs) [] = false
same_fields (f ∷ fs) (g ∷ gs) = str_eq (f.0) (g.0) && str_eq (f.1) (g.1) && same_fields fs gs

abbrev pub has_exact_deployment_schema : TypedDataContext → Bool
has_exact_deployment_schema context = elim context.deployment_intent [
  | none ↦ false
  | some actual ↦ same_fields actual deployment_intent_fields
]

-- `result.filters[path]?.path`
abbrev pub filter_path : Str → List (Str × Str) → Option Str
filter_path name [] = none
filter_path name (f ∷ fs) = if str_eq (f.0) name then some (f.1) else filter_path name fs

abbrev pub names : List (Str × Str) → List Str
names [] = []
names (f ∷ fs) = f.0 ∷ names fs

abbrev pub has_path : List (Str × Str) → Str → Bool
has_path filters path = elim (filter_path path filters) [
  | none ↦ false
  | some found ↦ str_eq found path
]

-- The comparison of `actualPaths[index]` with each expected path, on lists of one length.
abbrev pub same_paths : List (Str × Str) → List Str → List Str → Bool
same_paths filters [] [] = true
same_paths filters [] (p ∷ ps) = false
same_paths filters (p ∷ ps) [] = false
same_paths filters (p ∷ ps) (q ∷ qs) = str_eq p q && has_path filters q && same_paths filters ps qs

unfoldable pub has_exact_display_filters : TypedDataClearSignContext → Bool
has_exact_display_filters not_success = false
has_exact_display_filters (success count filters) =
    count == length deployment_intent_fields
    && same_paths filters (sort code_units_le (names filters))
        (sort code_units_le (names deployment_intent_fields))

-- `GuardedClearSigningContext.getTypedDataFilters`: what `#resolved` is afterwards. The arguments
-- before the context are the runtime's `toLowerCase` and the registry's address.
unfoldable pub get_typed_data_filters :
    (Str → Str) → Str → TypedDataContext → TypedDataClearSignContext → Bool
get_typed_data_filters lower contract context result =
    has_exact_display_filters result
    && context.chain_id == sepolia_chain_id
    && str_eq (lower context.verifying_contract) (lower contract)
    && has_exact_deployment_schema context
