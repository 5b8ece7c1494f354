-- ===== src/Agent/Catalog.antt =====
-- The catalog of deployment targets (apps/api/src/agent/catalog.ts). The text methods `trim`,
-- `replace(/\s+/g, " ")` and `toLowerCase` are the runtime's, and parameters. The file of the
-- catalog is read by the caller; an array with holes, which JSON cannot spell, is refused.
pub mod Lookup
use rovaulta.Domain.ReleaseSchemas.{parse_clearance_record}
use rovaulta.Simulation.Parse.{count_items, items_of, traverse, has_duplicates}
use rovaulta.Domain.Identifiers.{
  parse_site_id, parse_robot_id, parse_robot_build_id, parse_sha256_digest, parse_evaluation_id,
}
use rovaulta.Domain.Schemas.{is_text}
use rovaulta.Domain.Records.{ClearanceRecord}
use rovaulta.Domain.Value.{Value, Fields, str, arr, obj, get, only_known, has_own, null}
use rovaulta.Errors.{
  Result, fail_agent, ◌>>=◌, malformed_agent_request, ◌>>◌, require, ok, reject, agent, or_throw,
}
use rovaulta.Prelude.{
  Str, Bool, List, ℕ, ◌∷◌, codes, Option, leb, ◌||◌, false, if◌then◌else◌, ◌++◌, [], ◌&&◌, any,
  ◌==◌, length, all, true, none, ltb, some,
}

pub record TextRuntime : Type 0 where
  pub trim : Str → Str
  pub collapse_spaces : Str → Str
  pub to_lower_case : Str → Str

pub record DeploymentTarget : Type 0 where
  pub site_id : Str
  pub robot_id : Str
  pub robot_build_id : Str
  pub robot_build_digest : Str

-- `PublicEvaluationStatus`; the verdict is "CLEAR" or "HOLD".
pub record PublicEvaluationStatus : Type 0 where
  pub evaluation_id : Str
  pub is_clear : Bool

pub record DeploymentCatalogEntry : Type 0 where
  pub key : Str
  pub site_aliases : List Str
  pub robot_aliases : List Str
  pub build_aliases : List Str
  pub target : DeploymentTarget
  pub evaluation : PublicEvaluationStatus
  pub clearance : Option ClearanceRecord

abbrev pub malformed {ℓ} : {A : Type ℓ} → Result A
malformed = fail_agent malformed_agent_request

-- `[\x20-\x7e]`
abbrev pub is_printable : ℕ → Bool
is_printable c = leb 32 c && leb c 126

abbrev pub is_alphanumeric : ℕ → Bool
is_alphanumeric c = leb b'a' c && leb c b'z' || leb b'A' c && leb c b'Z' || leb b'0' c && leb c b'9'

-- `[a-z0-9 .:_/-]`, in any case
abbrev pub is_reference_char : ℕ → Bool
is_reference_char c = is_alphanumeric c || any (λ d. c == d) (codes " .:_/-")

-- `REFERENCE_PATTERN`
abbrev pub is_reference : Str → Bool
is_reference [] = false
is_reference (c ∷ s) = is_alphanumeric c && leb (length s) 79 && all is_reference_char s

-- `replace(/[.!]$/, "")`
abbrev pub drop_final_mark : Str → Str
drop_final_mark [] = []
drop_final_mark (c ∷ []) = if c == b'.' || c == b'!' then [] else c ∷ []
drop_final_mark (c ∷ d ∷ s) = c ∷ drop_final_mark (d ∷ s)

abbrev pub concat_map {ℓ κ} : {A : Type ℓ} {B : Type κ} → (A → List B) → List A → List B
concat_map f [] = []
concat_map f (x ∷ xs) = f x ++ concat_map f xs

-- The forms of a request for one alias of each kind.
abbrev pub forms_of : Str → Str → Str → List Str
forms_of site robot build =
    (codes "deploy robot " ++ robot ++ codes " using build " ++ build ++ codes " to " ++ site)
    ∷ (codes "deploy " ++ build ++ codes " for " ++ robot ++ codes " to " ++ site)
    ∷ (codes "deploy " ++ robot ++ codes " " ++ build ++ codes " to " ++ site)
    ∷ (codes "prepare " ++ robot ++ codes " " ++ build ++ codes " for " ++ site)
    ∷ (codes "please prepare " ++ robot ++ codes " build " ++ build ++ codes " for " ++ site)
    ∷ []

unfoldable pub public_request_forms : DeploymentCatalogEntry → List Str
public_request_forms entry =
    concat_map
      (λ site.
        concat_map (λ robot. concat_map (forms_of site robot) entry.build_aliases)
          entry.robot_aliases)
      entry.site_aliases

-- `aliases[0]`, written in a text
abbrev pub first_text : List Str → Str
first_text [] = codes "undefined"
first_text (s ∷ ss) = s

unfoldable pub format_public_deployment_request : DeploymentCatalogEntry → Str
format_public_deployment_request entry =
    codes "Deploy "
    ++ first_text entry.build_aliases
    ++ codes " for "
    ++ first_text entry.robot_aliases
    ++ codes " to "
    ++ first_text entry.site_aliases

abbrev pub expect_exact_record : Value → List Str → Result Fields
expect_exact_record (obj plain record_) keys = do
  require (only_known keys record_) (agent malformed_agent_request)
  require (all (λ key. has_own key record_) keys) (agent malformed_agent_request)
  ok record_
expect_exact_record _ keys = malformed

-- `evaluationInput.verdict === "CLEAR" || … === "HOLD"`
abbrev pub parse_public_verdict : Value → Result Bool
parse_public_verdict v =
    if is_text v (codes "CLEAR")
    then ok true
    else if is_text v (codes "HOLD")
    then ok false
    else malformed

abbrev pub parse_optional_clearance : Value → Result (Option ClearanceRecord)
parse_optional_clearance null = ok none
parse_optional_clearance v = parse_clearance_record v >>= λ c. ok (some c)

module _ (text : TextRuntime) where
  abbrev pub tidy : Str → Str
  tidy s = text.to_lower_case (text.collapse_spaces (text.trim s))

  unfoldable pub normalize_public_deployment_request : Value → Result Str
  normalize_public_deployment_request (str s) = do
    let normalized = tidy s
    reject (length normalized == 0 || ltb 256 (length normalized)) (agent malformed_agent_request)
    require (all is_printable normalized) (agent malformed_agent_request)
    ok (drop_final_mark normalized)
  normalize_public_deployment_request _ = malformed

  unfoldable pub normalize_reference : Value → Result Str
  normalize_reference (str s) = do
    let normalized = tidy s
    require (is_reference normalized && all is_printable normalized) (agent malformed_agent_request)
    ok normalized
  normalize_reference _ = malformed

  unfoldable pub parse_aliases : Value → Result (List Str)
  parse_aliases (arr ordinary data_items xs) = do
    reject (count_items xs == 0 || ltb 12 (count_items xs)) (agent malformed_agent_request)
    vs ← or_throw (items_of xs) (agent malformed_agent_request)
    values ← traverse normalize_reference vs
    reject (has_duplicates values) (agent malformed_agent_request)
    ok values
  parse_aliases _ = malformed

  unfoldable pub parse_deployment_catalog_entry : Value → Result DeploymentCatalogEntry
  parse_deployment_catalog_entry input = do
    record_ ← expect_exact_record input (
        codes "key"
        ∷ codes "aliases"
        ∷ codes "target"
        ∷ codes "evaluation"
        ∷ codes "clearance"
        ∷ [])
    key ← normalize_reference (get (codes "key") record_)
    aliases ←
        expect_exact_record (get (codes "aliases") record_)
          (codes "site" ∷ codes "robot" ∷ codes "build" ∷ [])
    target ←
        expect_exact_record (get (codes "target") record_)
          (codes "siteId" ∷ codes "robotId" ∷ codes "robotBuildId" ∷ codes "robotBuildDigest" ∷ [])
    site ← parse_site_id (get (codes "siteId") target)
    robot ← parse_robot_id (get (codes "robotId") target)
    build ← parse_robot_build_id (get (codes "robotBuildId") target)
    digest ← parse_sha256_digest (get (codes "robotBuildDigest") target)
    evaluation ←
        expect_exact_record (get (codes "evaluation") record_)
          (codes "evaluationId" ∷ codes "verdict" ∷ [])
    evaluation_id ← parse_evaluation_id (get (codes "evaluationId") evaluation)
    is_clear ← parse_public_verdict (get (codes "verdict") evaluation)
    site_aliases ← parse_aliases (get (codes "site") aliases)
    robot_aliases ← parse_aliases (get (codes "robot") aliases)
    build_aliases ← parse_aliases (get (codes "build") aliases)
    clearance ← parse_optional_clearance (get (codes "clearance") record_)
    ok (record {
      key = key;
      site_aliases = site_aliases;
      robot_aliases = robot_aliases;
      build_aliases = build_aliases;
      target = record {
        site_id = site;
        robot_id = robot;
        robot_build_id = build;
        robot_build_digest = digest;
      };
      evaluation = record { evaluation_id = evaluation_id; is_clear = is_clear };
      clearance = clearance;
    })
