-- ===== src/Agent/Tools.antt =====
-- The tools that the model is asked to call, and the arguments it may give
-- (apps/api/src/agent/tools.ts, apps/api/src/agent/types.ts).
use rovaulta.Errors.{Result, ◌>>◌, require, other_error, ok, err}
use rovaulta.Domain.Value.{Value, Fields, obj, only_known, has_own}
use rovaulta.Prelude.{Str, codes, List, ◌∷◌, [], str_eq, all}

pub data DeploymentAgentToolName : Type 0 where
  resolve_deployment_target get_deployment_context get_evaluation_status : DeploymentAgentToolName
  get_graph_context get_clearance prepare_deployment_intent : DeploymentAgentToolName
  get_ledger_authorization_status : DeploymentAgentToolName

abbrev pub tool_text : DeploymentAgentToolName → Str
tool_text resolve_deployment_target = codes "resolveDeploymentTarget"
tool_text get_deployment_context = codes "getDeploymentContext"
tool_text get_evaluation_status = codes "getEvaluationStatus"
tool_text get_graph_context = codes "getGraphContext"
tool_text get_clearance = codes "getClearance"
tool_text prepare_deployment_intent = codes "prepareDeploymentIntent"
tool_text get_ledger_authorization_status = codes "getLedgerAuthorizationStatus"

-- The arguments of a tool, which `toolDefinition` also names as required.
abbrev pub allowed_arguments : DeploymentAgentToolName → List Str
allowed_arguments resolve_deployment_target =
    codes "siteRef" ∷ codes "robotRef" ∷ codes "buildRef" ∷ []
allowed_arguments _ = []

-- A call with another name or with other arguments makes it throw an `Error`.
unfoldable pub parse_tool_arguments : DeploymentAgentToolName → Str → Value → Result Fields
parse_tool_arguments expected actual_name (obj plain record_) = do
  require (str_eq actual_name (tool_text expected)) other_error
  require (only_known (allowed_arguments expected) record_) other_error
  require (all (λ key. has_own key record_) (allowed_arguments expected)) other_error
  ok record_
parse_tool_arguments expected actual_name _ = err other_error
