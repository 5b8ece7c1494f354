-- ===== src/Simulation/Scenarios.antt =====
-- The scenario generator (packages/simulation-core/src/scenarios.ts). The generator's state is passed
-- on explicitly; where the code leaves it signed between two xors, it is the same 32 bits.
pub mod Drafts
pub mod Shuffle
use rovaulta.Domain.Schemas.{current_version}
use rovaulta.Simulation.Envelope.{
  parse_scenario_generation_config, parse_scenario_suite, suite_suffix,
}
use rovaulta.Domain.Records.{object, property}
use rovaulta.Errors.{Result, ok, ◌>>=◌, or_throw, other_error}
use Prim.Native.Nat.{bit_xor, suc}
use rovaulta.Domain.Value.{Value, Items, nil, item, str, integer, end, arr}
use rovaulta.Prelude.Int.{ℤ, pos, ◌+ℤ◌, ◌-ℤ◌}
use rovaulta.Simulation.Model.{ScenarioTemplate, ScenarioSuite}
use rovaulta.Prelude.{
  Str, ℕ, List, [], ◌∷◌, ◌*◌, codes, ◌^◌, ◌%◌, zero, get_elem?, none, ◌/◌, ◌+◌, length, set, ◌-◌,
  true, map,
}

-- `state ^= state << 13; state ^= state >>> 17; state ^= state << 5; state >>>= 0`
unfoldable pub next_uint32 : ℕ → ℕ
next_uint32 state =
    let a = bit_xor state (state * 2 ^ 13 % 2 ^ 32) in
    let b = bit_xor a (a / 2 ^ 17) in bit_xor b (b * 2 ^ 5 % 2 ^ 32)

-- The last loop of `xorshift32Sequence`.
pub next_values : ℕ → ℕ → List ℕ
next_values state zero = []
next_values state (suc count) = next_uint32 state ∷ next_values (next_uint32 state) count

-- `basePayloadGrams + (nextUint32() % variationSpan - payloadVariationGrams)`
unfoldable pub vary_payload : ScenarioTemplate → ℕ → ℤ
vary_payload t value =
    pos t.base_payload_grams
    +ℤ (pos (value % (t.payload_variation_grams * 2 + 1)) -ℤ pos t.payload_variation_grams)

-- A scenario before it is parsed: its id and its payload.
abbrev pub Draft : Type 0
Draft = Str × ℤ

-- `config.templates.map(…)`, with the state that it leaves.
unfoldable pub draft_scenarios : List ScenarioTemplate → ℕ → List Draft × ℕ
draft_scenarios [] state = ([], state)
draft_scenarios (t ∷ ts) state =
    let value = next_uint32 state in
    let (drafts, last) = draft_scenarios ts value in
    ((t.scenario_id, vary_payload t value) ∷ drafts, last)

-- One exchange of the loop below; a missing item is thrown.
unfoldable pub exchange {ℓ} : {A : Type ℓ} → List A → ℕ → ℕ → Result (List A)
exchange xs i j = do
  current ← or_throw (get_elem? xs i) other_error
  replacement ← or_throw (get_elem? xs j) other_error
  ok (set (set xs i replacement) j current)

-- The loop `for (let index = scenarios.length - 1; index > 0; index -= 1)`.
unfoldable pub shuffle {ℓ} : {A : Type ℓ} → ℕ → List A → ℕ → Result (List A)
shuffle zero xs state = ok xs
shuffle (suc index) xs state =
    let value = next_uint32 state in
    exchange xs (suc index) (value % (suc index + 1)) >>= λ ys. shuffle index ys value

abbrev pub of_draft : Draft → Value
of_draft (id, payload) =
    object (
      property (codes "scenarioId") (str id)
        (property (codes "payloadGrams") (integer payload) end))

abbrev pub of_list : List Value → Items
of_list [] = nil
of_list (v ∷ vs) = item v (of_list vs)

unfoldable pub generate_scenario_suite : Value → Result ScenarioSuite
generate_scenario_suite input = do
  config ← parse_scenario_generation_config input none
  let (drafts, state) = draft_scenarios config.templates config.seed
  scenarios ← shuffle (length drafts - 1) drafts state
  parse_scenario_suite (
      object (
        property (codes "schemaVersion") (str (current_version suite_suffix)) (
          property (codes "generatorVersion") (str config.generator_version) (
            property (codes "seed") (integer (pos config.seed)) (
              property (codes "scenarios") (arr true true (of_list (map of_draft scenarios)))
                end)))))
