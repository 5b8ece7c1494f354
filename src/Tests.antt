-- ===== src/Tests.antt =====
-- Runs of the modelled code on concrete data, and each theorem applied to concrete data.
pub mod Evaluation
pub mod Rules
pub mod Records
pub mod Nonces
pub mod Release
pub mod Agent
pub mod Application
pub mod Ledger
pub mod Registry
use rovaulta.Domain.Records.{EvaluationInputs}
use rovaulta.Domain.Digests.{Platform}
use rovaulta.Errors.{Result, ok, err}
use rovaulta.Prelude.{Str, List, codes, Bool, ◌≡◌, ℕ, true, ◌∷◌, [], false, refl}

-- Did the computation return?
abbrev pub has_returned {ℓ} : {A : Type ℓ} → Result A → Bool
has_returned (ok a) = true
has_returned (err e) = false

-- The value that a computation returned.
unfoldable pub returned {ℓ} :
    {A : Type ℓ} (m : Result A) → has_returned m ≡ true → (a : A) × (m ≡ ok a)
returned (ok a) h = (a, refl)
returned (err e) h = cc

-- A digest function and a normalization test for the runs.
abbrev pub zeros : List ℕ
zeros =
    0 ∷ 0 ∷ 0 ∷ 0 ∷ 0 ∷ 0 ∷ 0 ∷ 0 ∷ 0 ∷ 0 ∷ 0 ∷ 0 ∷ 0 ∷ 0 ∷ 0 ∷ 0 ∷ 0 ∷ 0 ∷ 0 ∷ 0 ∷ 0 ∷ 0 ∷ 0 ∷ 0
    ∷ 0 ∷ 0 ∷ 0 ∷ 0 ∷ 0 ∷ 0 ∷ 0 ∷ 0 ∷ []

abbrev pub platform : Platform
platform = record { is_nfc = λ s. true; sha256 = λ bytes. zeros }

abbrev pub digest : Str
digest = codes "sha256:0000000000000000000000000000000000000000000000000000000000000000"

abbrev pub sample_inputs : EvaluationInputs
sample_inputs = record {
  schema_version = codes "rovaulta.evaluation-inputs/v1";
  site_id = codes "site:alpha";
  robot_id = codes "robot:r1";
  robot_build_id = codes "robot-build:b1";
  robot_build_digest = digest;
  safety_envelope_id = codes "safety-envelope:e1";
  safety_envelope_commitment = digest;
  evaluator_version = codes "evaluator-version:warehouse-rules-v1";
}
