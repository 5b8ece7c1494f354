-- ===== src/Tests/Ledger.antt =====
-- A signing action on a device that takes the Clear Signing path.
use rovaulta.Prelude.Sort.{sort}
use rovaulta.Ledger.Errors.{clear_signing_unavailable, normalize_ledger_error}
use rovaulta.Ledger.StrictAction.Settled.{run_action-settles}
use rovaulta.Domain.Identifiers.{drop}
use rovaulta.Ledger.StrictAction.Resolved.{IsStrict, run_action-IsStrict}
use rovaulta.Ledger.Context.{
  TypedDataContext, deployment_intent_fields, get_typed_data_filters, has_exact_display_filters,
  success,
}
use rovaulta.Ledger.StrictAction.{
  DeviceOutput, run_action, Outcome, Event, perform, started, complete, begin, on_next, next,
  pending, to_canonical_signature, build_context, rejected, filters, sign_typed_data_legacy,
  completed, provide_context, sign_typed_data, resolved,
}
use rovaulta.Prelude.{Str, codes, List, ◌++◌, some, ◌∷◌, false, true, [], ◌≡◌, refl}

abbrev lower : Str → Str
lower s = s

abbrev contract : Str
contract = codes "0xC1"

abbrev scalar : Str
scalar = codes "0x1111111111111111111111111111111111111111111111111111111111111111"

abbrev output : DeviceOutput
output = record { r = scalar; s = scalar; v = 0 }

abbrev sample_context : TypedDataContext
sample_context = record {
  deployment_intent = some deployment_intent_fields;
  chain_id = 11155111;
  verifying_contract = contract;
}

abbrev own_paths : List (Str × Str) → List (Str × Str)
own_paths [] = []
own_paths (f ∷ fs) = (f.0, f.0) ∷ own_paths fs

abbrev events : List Event
events =
    begin
    ∷ next (pending build_context)
    ∷ filters sample_context (success 15 (own_paths deployment_intent_fields))
    ∷ next (pending provide_context)
    ∷ next (pending sign_typed_data)
    ∷ next (completed output)
    ∷ complete
    ∷ []

abbrev signature_text : Str
signature_text = scalar ++ drop 2 scalar ++ codes "1b"

events_lem :
    (run_action lower contract events (started false)).outcome ≡ some (resolved signature_text)
unfolding perform on_next to_canonical_signature get_typed_data_filters has_exact_display_filters
    normalize_ledger_error sort
events_lem = refl

-- A device that falls back to the legacy path.
abbrev legacy_events : List Event
legacy_events =
    next (pending build_context)
    ∷ next (pending sign_typed_data_legacy)
    ∷ next (completed output)
    ∷ []

legacy_lem :
    (run_action lower contract legacy_events (started true)).outcome
    ≡ some (rejected clear_signing_unavailable)
unfolding perform on_next
legacy_lem = refl

run_action-IsStrict_example : IsStrict lower contract events (started false) signature_text
run_action-IsStrict_example =
    run_action-IsStrict lower contract false events signature_text events_lem

run_action-settles_example :
    (o : Outcome) × ((run_action lower contract
        (legacy_events ++ complete ∷ [])
        (started true)).outcome
      ≡ some o)
run_action-settles_example = run_action-settles lower contract true legacy_events complete [] refl
