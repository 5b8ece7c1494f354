-- ===== src/Tests/Agent.antt =====
-- Requests and references to a catalog of two targets.
use rovaulta.Tests.{digest}
use rovaulta.Agent.Catalog.Lookup.Requests.{has_form, resolve_public_request-IsIn}
use rovaulta.Agent.Catalog.Lookup.Unique.{IsIn, resolve-IsIn, HasAliases}
use rovaulta.Errors.{ok}
use rovaulta.Domain.Value.{str}
use rovaulta.Agent.Catalog.Lookup.{resolve_public_request, resolve}
use rovaulta.Agent.Catalog.{
  TextRuntime, DeploymentTarget, DeploymentCatalogEntry, normalize_public_deployment_request,
  normalize_reference, public_request_forms,
}
use rovaulta.Prelude.{Str, List, codes, ◌∷◌, ◌≡◌, [], true, refl, some, All}
use rovaulta.Tests.Records.{clearance}

abbrev text : TextRuntime
text = record { trim = λ s. s; collapse_spaces = λ s. s; to_lower_case = λ s. s }

abbrev target_of : Str → DeploymentTarget
target_of build = record {
  site_id = codes "site:alpha";
  robot_id = codes "robot:r1";
  robot_build_id = build;
  robot_build_digest = digest;
}

abbrev entry_of : Str → Str → DeploymentCatalogEntry
entry_of key build = record {
  key = key;
  site_aliases = codes "alpha" ∷ codes "north hall" ∷ [];
  robot_aliases = codes "r1" ∷ [];
  build_aliases = build ∷ [];
  target = target_of (codes "robot-build:b1");
  evaluation = record { evaluation_id = codes "evaluation:one"; is_clear = true };
  clearance = some clearance;
}

abbrev entries : List DeploymentCatalogEntry
entries = entry_of (codes "first") (codes "b1") ∷ entry_of (codes "second") (codes "b2") ∷ []

request_lem :
    resolve_public_request text entries (str (codes "deploy b2 for r1 to north hall."))
    ≡ ok (entry_of (codes "second") (codes "b2"))
unfolding resolve_public_request normalize_public_deployment_request public_request_forms
request_lem = refl

resolve_public_request-IsIn_example :
    (request : Str) × (normalize_public_deployment_request text
        (str (codes "deploy b2 for r1 to north hall."))
      ≡ ok request)
    × IsIn (entry_of (codes "second") (codes "b2")) entries
    × (has_form request (entry_of (codes "second") (codes "b2")) ≡ true)
    × All (λ x. has_form request x ≡ true → x.key ≡ codes "second") entries
resolve_public_request-IsIn_example =
    resolve_public_request-IsIn text entries (str (codes "deploy b2 for r1 to north hall."))
      (entry_of (codes "second") (codes "b2")) request_lem

resolve_lem :
    resolve text entries (str (codes "alpha")) (str (codes "r1")) (str (codes "b1"))
    ≡ ok (entry_of (codes "first") (codes "b1"))
unfolding resolve normalize_reference
resolve_lem = refl

resolve-IsIn_example :
    (site : Str) × (robot : Str) × (build : Str) × (normalize_reference text (str (codes "alpha"))
      ≡ ok site)
    × (normalize_reference text (str (codes "r1")) ≡ ok robot)
    × (normalize_reference text (str (codes "b1")) ≡ ok build)
    × HasAliases site robot build (entry_of (codes "first") (codes "b1"))
    × IsIn (entry_of (codes "first") (codes "b1")) entries
    × All (λ x. HasAliases site robot build x → x ≡ entry_of (codes "first") (codes "b1")) entries
resolve-IsIn_example =
    resolve-IsIn text entries (str (codes "alpha")) (str (codes "r1")) (str (codes "b1"))
      (entry_of (codes "first") (codes "b1")) resolve_lem
