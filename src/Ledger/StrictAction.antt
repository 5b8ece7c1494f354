-- ===== src/Ledger/StrictAction.antt =====
-- The strict signing action (packages/ledger-gate/src/strict-action.ts): a state machine whose
-- inputs are what the device's stream delivers and the calls on the signing context, in any order.
-- A closed subscription may still deliver, since the source can settle before it has it.
pub mod Settled
pub mod Deliveries
pub mod Contexts
pub mod Resolved
use rovaulta.Domain.Identifiers.{drop, is_hex}
use rovaulta.Ledger.Context.{TypedDataContext, TypedDataClearSignContext, get_typed_data_filters}
use rovaulta.Ledger.Errors.{
  Thrown, normalize_ledger_error, clear_signing_unavailable, signing_failed, malformed_signature,
  LedgerGateErrorCode,
}
use rovaulta.Prelude.{
  Str, ℕ, List, Bool, Option, ◌++◌, true, if◌then◌else◌, ◌==◌, starts_with, leb, some, ◌||◌, ◌∷◌,
  any, ◌&&◌, false, [], none, codes, ◌+◌, length, all,
}

-- `SignTypedDataDAStateStep`, with the steps that the source names.
pub data SignStep : Type 0 where
  build_context provide_context sign_typed_data sign_typed_data_legacy : SignStep
  another_step : ℕ → SignStep

pub record DeviceOutput : Type 0 where
  pub r : Str
  pub s : Str
  pub v : ℕ

-- `DeviceActionState`
pub data DeviceState : Type 0 where
  not_started stopped : DeviceState
  pending : SignStep → DeviceState
  completed : DeviceOutput → DeviceState
  failed : Thrown → DeviceState

-- What the promise is settled with. The steps of a signature are the list that the state holds.
pub data Outcome : Type 0 where
  resolved : Str → Outcome
  rejected : LedgerGateErrorCode → Outcome

pub record ActionState : Type 0 where
  pub steps : List SignStep
  pub settled : Bool
  pub cancelled : Bool
  pub outcome : Option Outcome
  pub context_resolved : Bool

pub data Event : Type 0 where
  next : DeviceState → Event
  error : Thrown → Event
  complete begin : Event
  filters : TypedDataContext → TypedDataClearSignContext → Event

abbrev pub same_step : SignStep → SignStep → Bool
same_step build_context build_context = true
same_step provide_context provide_context = true
same_step sign_typed_data sign_typed_data = true
same_step sign_typed_data_legacy sign_typed_data_legacy = true
same_step (another_step n) (another_step m) = n == m
same_step _ _ = false

-- `/^0x[0-9a-fA-F]{64}$/`
abbrev pub is_scalar : Str → Bool
is_scalar s =
    starts_with (codes "0x") s
    && length (drop 2 s) == 64
    && all (λ c. is_hex c || leb b'A' c && leb c b'F') (drop 2 s)

-- `toCanonicalSignature`; `none` is the throw of MALFORMED_SIGNATURE.
unfoldable pub to_canonical_signature : DeviceOutput → Option Str
to_canonical_signature output =
    let v = if leb output.v 1 then output.v + 27 else output.v in
    if is_scalar output.r && is_scalar output.s
    then if v == 27
      then some (output.r ++ drop 2 output.s ++ codes "1b")
      else if v == 28
      then some (output.r ++ drop 2 output.s ++ codes "1c")
      else none
    else none

-- A promise keeps what it is settled with first.
abbrev pub settle_with : Outcome → Option Outcome → Option Outcome
settle_with o none = some o
settle_with o (some first) = some first

-- `settled = true`, perhaps `action.cancel()`, and `resolve` or `reject`
abbrev pub settle : Bool → Outcome → ActionState → ActionState
settle cancel o s = record {
  steps = s.steps;
  settled = true;
  cancelled = s.cancelled || cancel;
  outcome = settle_with o s.outcome;
  context_resolved = s.context_resolved;
}

abbrev pub push_step : SignStep → ActionState → ActionState
push_step step s = record {
  steps = s.steps ++ step ∷ [];
  settled = s.settled;
  cancelled = s.cancelled;
  outcome = s.outcome;
  context_resolved = s.context_resolved;
}

abbrev pub set_context : Bool → ActionState → ActionState
set_context b s = record {
  steps = s.steps;
  settled = s.settled;
  cancelled = s.cancelled;
  outcome = s.outcome;
  context_resolved = b;
}

-- A state that is pending at a step. `assertResolved` throws where the context is not resolved.
abbrev pub on_pending : SignStep → ActionState → ActionState
on_pending sign_typed_data_legacy s =
    settle true (rejected clear_signing_unavailable) (push_step sign_typed_data_legacy s)
on_pending sign_typed_data s =
    if s.context_resolved
    then push_step sign_typed_data s
    else settle true (rejected clear_signing_unavailable) (push_step sign_typed_data s)
on_pending step s = push_step step s

abbrev pub has_step : SignStep → ActionState → Bool
has_step step s = any (same_step step) s.steps

-- `requiredSteps.every((step) => steps.includes(step))`
abbrev pub has_required_steps : ActionState → Bool
has_required_steps s =
    has_step build_context s && has_step provide_context s && has_step sign_typed_data s

abbrev pub completion : ActionState → DeviceOutput → Outcome
completion s output =
    if has_required_steps s
    then elim (to_canonical_signature output) [
      | none ↦ rejected malformed_signature
      | some signature ↦ resolved signature
    ]
    else rejected clear_signing_unavailable

-- `if (!settled)`
abbrev pub if_open : Outcome → ActionState → ActionState
if_open o s = if s.settled then s else settle false o s

module _ (lower : Str → Str) (contract : Str) where
  unfoldable pub on_next : DeviceState → ActionState → ActionState
  on_next not_started s = s
  on_next (pending step) s = on_pending step s
  on_next (completed output) s = if_open (completion s output) s
  on_next (failed thrown) s = if_open (rejected (normalize_ledger_error lower thrown)) s
  on_next stopped s = if_open (rejected signing_failed) s

  unfoldable pub perform : Event → ActionState → ActionState
  unfolding on_next
  perform (next state) s = on_next state s
  perform (error thrown) s = if_open (rejected (normalize_ledger_error lower thrown)) s
  perform complete s = if_open (rejected signing_failed) s
  perform begin s = set_context false s
  perform (filters context result) s =
      set_context (get_typed_data_filters lower contract context result) s

  -- `runStrictTypedDataAction`, on the events that follow
  abbrev pub run_action : List Event → ActionState → ActionState
  run_action [] s = s
  run_action (e ∷ es) s = run_action es (perform e s)

-- The state in which the action begins, with the context as it is.
abbrev pub started : Bool → ActionState
started b = record {
  steps = [];
  settled = false;
  cancelled = false;
  outcome = none;
  context_resolved = b;
}
