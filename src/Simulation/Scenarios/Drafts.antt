-- ===== src/Simulation/Scenarios/Drafts.antt =====
-- The suite that `generateScenarioSuite` returns, against the configuration's templates.
use rovaulta.Simulation.Scenarios.Shuffle.{shuffle_all}
use rovaulta.Domain.Schemas.{current_version, legacy_version}
use rovaulta.Domain.Records.{object, property}
use rovaulta.Domain.Identifiers.Accepts.{parse_identifier_iff}
use rovaulta.Errors.{ok, Result-cases, err, protocol, unsupported_version}
use rovaulta.Domain.Value.{expect_data_object, integer, str, Value, arr, end, resolve_version}
use rovaulta.Simulation.Parse.{
  expect_exact_object, expect_natural, expect_integer, parse_scenario_id, parse_payload, traverse,
  expect_array, items_of, expect_version,
}
use rovaulta.Simulation.Envelope.{
  parse_generated_scenario, parse_scenario_suite, suite_suffix, parse_scenario_generation_config,
  generator_suffix,
}
use rovaulta.Simulation.Scenarios.{
  vary_payload, draft_scenarios, Draft, next_uint32, of_draft, ok, object, of_list, current_version,
  generate_scenario_suite,
}
use rovaulta.Simulation.Model.{
  ScenarioTemplate, GeneratedScenario, max_payload_grams, ScenarioSuite, max_scenarios,
  ScenarioGenerationConfig,
}
use rovaulta.Prelude.{
  List, ℕ, ◌≡◌, ◌%◌, ◌*◌, ◌+◌, [], ◌<◌, arith, refl, inl, codes, inr, Str, map, sym, true, some,
  none,
}
use rovaulta.Prelude.Int.{int_laws, pos, ◌≤ℤ◌, ◌+ℤ◌, ℤ, negsuc}
use mathlib.Core.List.{List, ◌∷◌, map, Perm}

-- The draft is of the template: its id, and a payload inside the template's variation.
abbrev pub IsDraftOf : ScenarioTemplate → Draft → Type 0
IsDraftOf t (id, payload) =
    (id ≡ t.scenario_id)
    × (pos t.base_payload_grams ≤ℤ (payload +ℤ pos t.payload_variation_grams))
    × (payload ≤ℤ pos (t.base_payload_grams + t.payload_variation_grams))

-- One draft for each template, in order.
abbrev pub AreDraftsOf : List ScenarioTemplate → List Draft → Type 0
AreDraftsOf [] [] = Unit
AreDraftsOf [] (d ∷ ds) = ⊥
AreDraftsOf (t ∷ ts) [] = ⊥
AreDraftsOf (t ∷ ts) (d ∷ ds) = IsDraftOf t d × AreDraftsOf ts ds

vary_payload-IsDraftOf :
    (t : ScenarioTemplate) (value : ℕ) → IsDraftOf t (t.scenario_id, vary_payload t value)
unfolding vary_payload
vary_payload-IsDraftOf t value =
    let m = value % (t.payload_variation_grams * 2 + 1) in
    let h : m < t.payload_variation_grams * 2 + 1 = omega arith in
    (refl, omega (int_laws, h), omega (int_laws, h))

draft_scenarios-AreDraftsOf :
    (ts : List ScenarioTemplate) (state : ℕ) → AreDraftsOf ts (draft_scenarios ts state).0
unfolding draft_scenarios
draft_scenarios-AreDraftsOf [] state = tt
draft_scenarios-AreDraftsOf (t ∷ ts) state = (
  vary_payload-IsDraftOf t (next_uint32 state),
  draft_scenarios-AreDraftsOf ts (next_uint32 state),
)

abbrev pub draft_of : GeneratedScenario → Draft
draft_of s = (s.scenario_id, pos s.payload_grams)

expect_natural_lem : (n : ℤ) (lo hi r : ℕ) → expect_natural (integer n) lo hi ≡ ok r → n ≡ pos r
unfolding expect_natural expect_integer
expect_natural_lem (pos n) lo hi r h = ground arith
expect_natural_lem (negsuc n) lo hi r h = ground arith

parse_generated_scenario-of_draft :
    (d : Draft) (s : GeneratedScenario)
    → parse_generated_scenario (of_draft d) ≡ ok s
    → d ≡ draft_of s
unfolding parse_generated_scenario expect_exact_object expect_data_object
parse_generated_scenario-of_draft (id, payload) s h =
    elim (Result-cases (parse_scenario_id (str id))) [
      | inl (r, e) ↦
          let q : str id ≡ str r =
            ((parse_identifier_iff (codes "scenario") (str id) r (omega arith)).0 e).0 in
          elim (Result-cases (parse_payload (integer payload))) [
            | inl (n, f) ↦
                let k = expect_natural_lem payload 0 max_payload_grams n f in ground arith
            | inr (x, f) ↦ absurd (let k : ok s ≡ err x = ground arith in cc)
          ]
      | inr (x, e) ↦ absurd (let k : ok s ≡ err x = ground arith in cc)
    ]

traverse_lem :
    (ds : List Draft) (ss : List GeneratedScenario)
    → traverse parse_generated_scenario (map of_draft ds) ≡ ok ss
    → ds ≡ map draft_of ss
unfolding traverse
traverse_lem [] ss h = let q : [] ≡ ss = ground arith in rw (sym q) refl
traverse_lem (d ∷ ds) ss h = elim (Result-cases (parse_generated_scenario (of_draft d))) [
  | inl (s, e) ↦ elim (Result-cases (traverse parse_generated_scenario (map of_draft ds))) [
    | inl (rest, f) ↦
        let q : s ∷ rest ≡ ss = ground arith in
        rw (parse_generated_scenario-of_draft d s e, traverse_lem ds rest f, sym q) refl
    | inr (x, f) ↦ absurd (let k : ok ss ≡ err x = ground arith in cc)
  ]
  | inr (x, e) ↦ absurd (let k : ok ss ≡ err x = ground arith in cc)
]

items_of_lem : (vs : List Value) → items_of (of_list vs) ≡ some vs
items_of_lem [] = refl
items_of_lem (v ∷ vs) = rw (items_of_lem vs) refl

expect_array_lem :
    (vs ws : List Value) (maximum : ℕ)
    → expect_array (arr true true (of_list vs)) maximum ≡ ok ws
    → vs ≡ ws
unfolding expect_array
expect_array_lem vs ws maximum h = let q = items_of_lem vs in ground arith

suite_value : Str → ℕ → List Draft → Value
suite_value version seed ds = object (
    property (codes "schemaVersion") (str (current_version suite_suffix)) (
      property (codes "generatorVersion") (str version) (
        property (codes "seed") (integer (pos seed))
          (property (codes "scenarios") (arr true true (of_list (map of_draft ds))) end))))

parse_scenario_suite_lem :
    (version : Str) (seed : ℕ) (ds : List Draft) (suite : ScenarioSuite)
    → parse_scenario_suite (suite_value version seed ds) ≡ ok suite
    → ds ≡ map draft_of suite.scenarios
unfolding parse_scenario_suite suite_value expect_exact_object expect_data_object
parse_scenario_suite_lem version seed ds suite h =
    elim (Result-cases (expect_array (arr true true (of_list (map of_draft ds))) max_scenarios)) [
      | inl (ws, e) ↦
          let q = expect_array_lem (map of_draft ds) ws max_scenarios e in
          elim (Result-cases (traverse parse_generated_scenario (map of_draft ds))) [
            | inl (ss, f) ↦
                let k : ss ≡ suite.scenarios = ground arith in rw (sym k) (traverse_lem ds ss f)
            | inr (x, f) ↦ absurd (let k : ok suite ≡ err x = ground arith in cc)
          ]
      | inr (x, e) ↦ absurd (let k : ok suite ≡ err x = ground arith in cc)
    ]

-- The scenarios that are returned are, in some order, one for each template of the configuration:
-- of the template's id, and with a payload within the template's variation of its base payload.
pub generate_scenario_suite-AreDraftsOf :
    (input : Value) (config : ScenarioGenerationConfig) (suite : ScenarioSuite)
    → parse_scenario_generation_config input none ≡ ok config
    → generate_scenario_suite input ≡ ok suite
    → (ds : List Draft) × AreDraftsOf config.templates ds × Perm (map draft_of suite.scenarios) ds
unfolding generate_scenario_suite suite_value
generate_scenario_suite-AreDraftsOf input config suite e h =
    let ds = (draft_scenarios config.templates config.seed).0 in
    let state = (draft_scenarios config.templates config.seed).1 in
    let (zs, f, p) = shuffle_all ds state in
    let q =
      parse_scenario_suite_lem config.generator_version config.seed zs suite (rw (e, f) at h) in
    (ds, draft_scenarios-AreDraftsOf config.templates config.seed, rw (sym q) p)

-- A configuration of the legacy generator version is never turned into a suite: the suite is
-- written with the current schema version, which its parser does not accept beside it.
pub generate_scenario_suite-legacy :
    (input : Value) (config : ScenarioGenerationConfig)
    → parse_scenario_generation_config input none ≡ ok config
    → config.generator_version ≡ legacy_version generator_suffix
    → generate_scenario_suite input ≡ err (protocol unsupported_version)
unfolding generate_scenario_suite parse_scenario_suite expect_exact_object expect_data_object
    expect_version resolve_version
generate_scenario_suite-legacy input config e v =
    let ds = (draft_scenarios config.templates config.seed).0 in
    let state = (draft_scenarios config.templates config.seed).1 in
    let (zs, f, p) = shuffle_all ds state in rw (e, f, v) refl
