-- ===== src/Agent/Catalog/Lookup.antt =====
-- Finding the target of a request (`DeploymentCatalog` of apps/api/src/agent/catalog.ts). A catalog
-- is its list of entries.
pub mod Unique
pub mod Requests
use rovaulta.Simulation.Parse.{traverse, has_duplicates}
use rovaulta.Domain.Value.{Value}
use rovaulta.Errors.{
  Result, fail_agent, ok, ◌>>◌, ◌>>=◌, target_not_found, target_ambiguous, reject, agent,
  malformed_agent_request,
}
use rovaulta.Agent.Catalog.{
  DeploymentCatalogEntry, TextRuntime, Bool, Result, ◌∷◌, Value, any, fail_agent,
  public_request_forms, ok, reject, normalize_reference, normalize_public_deployment_request,
  length, agent, ltb, malformed_agent_request, traverse, parse_deployment_catalog_entry,
  has_duplicates,
}
use rovaulta.Prelude.{
  Str, List, Bool, ◌∷◌, if◌then◌else◌, any, [], str_eq, ◌++◌, ◌&&◌, length, ◌==◌, ◌||◌, ltb,
}

abbrev pub filter_entries :
    (DeploymentCatalogEntry → Bool) → List DeploymentCatalogEntry → List DeploymentCatalogEntry
filter_entries test [] = []
filter_entries test (e ∷ es) = if test e then e ∷ filter_entries test es else filter_entries test es

-- The condition of the `filter` in `resolve`.
abbrev pub has_aliases : Str → Str → Str → DeploymentCatalogEntry → Bool
has_aliases site robot build entry =
    any (str_eq site) entry.site_aliases
    && any (str_eq robot) entry.robot_aliases
    && any (str_eq build) entry.build_aliases

-- The only match of `resolve`.
abbrev pub only_match : List DeploymentCatalogEntry → Result DeploymentCatalogEntry
only_match [] = fail_agent target_not_found
only_match (e ∷ []) = ok e
only_match (e ∷ f ∷ es) = fail_agent target_ambiguous

-- The list of an entry under each of its forms that is the request.
abbrev pub form_matches : Str → DeploymentCatalogEntry → List Str → List DeploymentCatalogEntry
form_matches request entry [] = []
form_matches request entry (form ∷ forms) =
    if str_eq form request
    then entry ∷ form_matches request entry forms
    else form_matches request entry forms

-- `#publicRequestForms.get(normalized) ?? []`
abbrev pub request_matches : Str → List DeploymentCatalogEntry → List DeploymentCatalogEntry
request_matches request [] = []
request_matches request (e ∷ es) =
    form_matches request e (public_request_forms e) ++ request_matches request es

-- The `set` of a `Map` by the key of an entry, in the order of insertion.
abbrev pub set_match :
    DeploymentCatalogEntry → List DeploymentCatalogEntry → List DeploymentCatalogEntry
set_match e [] = e ∷ []
set_match e (m ∷ ms) = if str_eq m.key e.key then e ∷ ms else m ∷ set_match e ms

abbrev pub unique_matches :
    List DeploymentCatalogEntry → List DeploymentCatalogEntry → List DeploymentCatalogEntry
unique_matches [] found = found
unique_matches (m ∷ ms) found = unique_matches ms (set_match m found)

-- The only one of the unique matches.
abbrev pub only_unique : List DeploymentCatalogEntry → Result DeploymentCatalogEntry
only_unique (e ∷ []) = ok e
only_unique _ = fail_agent target_ambiguous

abbrev pub keys_of_entries : List DeploymentCatalogEntry → List Str
keys_of_entries [] = []
keys_of_entries (e ∷ es) = e.key ∷ keys_of_entries es

module _ (text : TextRuntime) where
  unfoldable pub new_catalog : List Value → Result (List DeploymentCatalogEntry)
  new_catalog inputs = do
    reject (length inputs == 0 || ltb 100 (length inputs)) (agent malformed_agent_request)
    entries ← traverse (parse_deployment_catalog_entry text) inputs
    reject (has_duplicates (keys_of_entries entries)) (agent malformed_agent_request)
    ok entries

  unfoldable pub resolve :
      List DeploymentCatalogEntry → Value → Value → Value → Result DeploymentCatalogEntry
  resolve entries site_ref robot_ref build_ref = do
    site ← normalize_reference text site_ref
    robot ← normalize_reference text robot_ref
    build ← normalize_reference text build_ref
    only_match (filter_entries (has_aliases site robot build) entries)

  unfoldable pub resolve_public_request :
      List DeploymentCatalogEntry → Value → Result DeploymentCatalogEntry
  resolve_public_request entries input = do
    normalized ← normalize_public_deployment_request text input
    let matches = request_matches normalized entries
    reject (length matches == 0) (agent malformed_agent_request)
    only_unique (unique_matches matches [])
