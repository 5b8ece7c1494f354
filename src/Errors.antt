-- ===== src/Errors.antt =====
-- The exceptions that cross the modelled code, and computations that may throw one
-- (packages/domain/src/errors.ts, packages/chain-client/src/errors.ts,
-- apps/api/src/agent/types.ts, apps/api/src/application/errors.ts). Message and path texts are for
-- diagnosis only and are left out.
use rovaulta.Prelude.{◌≡◌, refl, Bool, true, false, Option, none, some, ◌⊎◌, inl, inr, ap}

-- packages/domain/src/errors.ts
pub data ProtocolErrorCode : Type 0 where
  invalid_identifier malformed_object unsupported_version canonicalization_failure :
      ProtocolErrorCode
  digest_mismatch invalid_expiry missing_required_binding binding_mismatch : ProtocolErrorCode

-- packages/chain-client/src/errors.ts
pub data ReleaseGateErrorCode : Type 0 where
  malformed_request wrong_chain registry_unavailable clearance_not_found : ReleaseGateErrorCode
  clearance_not_clear clearance_revoked clearance_expired : ReleaseGateErrorCode
  clearance_binding_mismatch unauthorized_signer nonce_not_found : ReleaseGateErrorCode
  replay_rejected intent_expired malformed_signature signature_mismatch : ReleaseGateErrorCode
  clearance_invalidated persistence_unavailable : ReleaseGateErrorCode

-- apps/api/src/agent/types.ts
pub data DeploymentAgentErrorCode : Type 0 where
  malformed_agent_request target_not_found target_ambiguous : DeploymentAgentErrorCode
  agent_protocol_violation provider_unavailable provider_failed : DeploymentAgentErrorCode
  graph_unavailable : DeploymentAgentErrorCode

-- apps/api/src/application/errors.ts; the last one is its own PERSISTENCE_UNAVAILABLE.
pub data ApplicationErrorCode : Type 0 where
  auth_required invalid_credentials duplicate_account invalid_input : ApplicationErrorCode
  not_found forbidden conflict build_not_ready build_failed : ApplicationErrorCode
  policy_unavailable evaluation_unavailable application_persistence_unavailable :
      ApplicationErrorCode

-- What a call throws: one of the coded classes, or any other `Error`.
pub data Failure : Type 0 where
  protocol : ProtocolErrorCode → Failure
  release : ReleaseGateErrorCode → Failure
  agent : DeploymentAgentErrorCode → Failure
  application : ApplicationErrorCode → Failure
  other_error : Failure

pub data Result {ℓ} (A : Type ℓ) : Type ℓ where
  ok : A → Result A
  err : Failure → Result A

-- `failProtocol` and `failRelease`
abbrev pub fail_protocol {ℓ} : {A : Type ℓ} → ProtocolErrorCode → Result A
fail_protocol code = err (protocol code)

abbrev pub fail_agent {ℓ} : {A : Type ℓ} → DeploymentAgentErrorCode → Result A
fail_agent code = err (agent code)

abbrev pub fail_release {ℓ} : {A : Type ℓ} → ReleaseGateErrorCode → Result A
fail_release code = err (release code)

infixl 5 ◌>>=◌ ◌>>◌
-- The first throw ends the computation.
abbrev pub ◌>>=◌ {ℓ κ} : {A : Type ℓ} {B : Type κ} → Result A → (A → Result B) → Result B
err failure >>= next = err failure
ok value >>= next = next value

-- A check, and what follows where it passes.
abbrev pub ◌>>◌ {κ} : {B : Type κ} → Result (Unit {0}) → Result B → Result B
check >> rest = check >>= λ passed. rest

-- `if (!test) fail…`
abbrev pub require : Bool → Failure → Result (Unit {0})
require true e = ok tt
require false e = err e

-- `if (test) fail…`
abbrev pub reject : Bool → Failure → Result (Unit {0})
reject true e = err e
reject false e = ok tt

-- `throw` where an optional value is missing
abbrev pub or_throw {ℓ} : {A : Type ℓ} → Option A → Failure → Result A
or_throw none e = err e
or_throw (some a) e = ok a

-- What a check that is followed by more has passed.
pub >>-eq-ok {ℓ} :
    {B : Type ℓ} (m : Result (Unit {0})) (k : Result B) {b : B}
    → (m >> k) ≡ ok b
    → (m ≡ ok tt) × (k ≡ ok b)
>>-eq-ok (ok tt) k h = (refl, h)
>>-eq-ok (err e) k h = cc

pub Result-cases {ℓ} :
    {A : Type ℓ} (m : Result A) → ((a : A) × (m ≡ ok a)) ⊎ ((e : Failure) × (m ≡ err e))
Result-cases (ok a) = inl (a, refl)
Result-cases (err e) = inr (e, refl)

pub ok-injective {ℓ} : {A : Type ℓ} {a b : A} → ok a ≡ ok b → a ≡ b
ok-injective h = cc

-- A computation that returned, taken apart at its first step.
pub bind_parts {ℓ κ} :
    {A : Type ℓ} {B : Type κ} {b : B} (m : Result A) (next : A → Result B)
    → (m >>= next) ≡ ok b
    → (a : A) × (m ≡ ok a) × (next a ≡ ok b)
bind_parts (err failure) next h = cc
bind_parts (ok value) next h = (value, refl, h)

pub require_passed :
    (test : Bool) (e : Failure) {u : Unit {0}} → require test e ≡ ok u → test ≡ true
require_passed true e h = refl
require_passed false e h = cc

pub reject_passed : (test : Bool) (e : Failure) {u : Unit {0}} → reject test e ≡ ok u → test ≡ false
reject_passed true e h = cc
reject_passed false e h = refl

pub or_throw_passed {ℓ} :
    {A : Type ℓ} (o : Option A) (e : Failure) {a : A} → or_throw o e ≡ ok a → o ≡ some a
or_throw_passed none e h = cc
or_throw_passed (some x) e h = ap some (ok-injective h)
