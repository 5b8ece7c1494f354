-- ===== src/Ledger/StrictAction/Deliveries.antt =====
-- The steps that a strict action records (packages/ledger-gate/src/strict-action.ts) are those that
-- the device delivered.
use mathlib.Core.List.{append-nil, append_assoc}
use rovaulta.Prelude.{
  List, Str, Any, Bool, any, ◌≡◌, ◌++◌, Bool-cases, sym, [], true, ◌||◌, arith, ap, inl, ◌↔◌, inr,
  ◌∙◌, refl, ==_iff,
}
use rovaulta.Ledger.StrictAction.{
  Event, SignStep, Outcome, next, ◌∷◌, same_step, Bool, any, ActionState, perform, pending, if_open,
  on_next, run_action, has_step, [], true, another_step, started, completed, build_context, failed,
  provide_context, error, sign_typed_data, filters, sign_typed_data_legacy, complete, begin,
  not_started, stopped,
}

-- The step that an event delivers, in a list.
abbrev step_of : Event → List SignStep
step_of (next (pending step)) = step ∷ []
step_of _ = []

abbrev deliveries : List Event → List SignStep
deliveries [] = []
deliveries (e ∷ es) = step_of e ++ deliveries es

-- The device delivers the step in one of the events.
abbrev pub IsDelivered : SignStep → List Event → Type 0
IsDelivered step es = Any (λ e. e ≡ next (pending step)) es

same_step-eq : (a b : SignStep) → same_step a b ≡ true → a ≡ b
same_step-eq build_context build_context h = refl
same_step-eq build_context provide_context h = cc
same_step-eq build_context sign_typed_data h = cc
same_step-eq build_context sign_typed_data_legacy h = cc
same_step-eq build_context (another_step m) h = cc
same_step-eq provide_context build_context h = cc
same_step-eq provide_context provide_context h = refl
same_step-eq provide_context sign_typed_data h = cc
same_step-eq provide_context sign_typed_data_legacy h = cc
same_step-eq provide_context (another_step m) h = cc
same_step-eq sign_typed_data build_context h = cc
same_step-eq sign_typed_data provide_context h = cc
same_step-eq sign_typed_data sign_typed_data h = refl
same_step-eq sign_typed_data sign_typed_data_legacy h = cc
same_step-eq sign_typed_data (another_step m) h = cc
same_step-eq sign_typed_data_legacy build_context h = cc
same_step-eq sign_typed_data_legacy provide_context h = cc
same_step-eq sign_typed_data_legacy sign_typed_data h = cc
same_step-eq sign_typed_data_legacy sign_typed_data_legacy h = refl
same_step-eq sign_typed_data_legacy (another_step m) h = cc
same_step-eq (another_step n) build_context h = cc
same_step-eq (another_step n) provide_context h = cc
same_step-eq (another_step n) sign_typed_data h = cc
same_step-eq (another_step n) sign_typed_data_legacy h = cc
same_step-eq (another_step n) (another_step m) h = ap another_step ((==_iff n m).0 h)

same_step_refl : (a : SignStep) → same_step a a ≡ true
same_step_refl build_context = refl
same_step_refl provide_context = refl
same_step_refl sign_typed_data = refl
same_step_refl sign_typed_data_legacy = refl
same_step_refl (another_step n) = ground arith

any-append :
    (test : SignStep → Bool) (xs ys : List SignStep)
    → any test (xs ++ ys) ≡ (any test xs || any test ys)
any-append test [] ys = refl
any-append test (x ∷ xs) ys = ground (arith, any-append test xs ys)

step_of-eq :
    (step : SignStep) (e : Event)
    → any (same_step step) (step_of e) ≡ true
    → e ≡ next (pending step)
step_of-eq step (next (pending x)) h =
    ap (λ y. next (pending y)) (sym (same_step-eq step x (ground arith)))
step_of-eq step (next not_started) h = cc
step_of-eq step (next stopped) h = cc
step_of-eq step (next (completed output)) h = cc
step_of-eq step (next (failed thrown)) h = cc
step_of-eq step (error thrown) h = cc
step_of-eq step complete h = cc
step_of-eq step begin h = cc
step_of-eq step (filters context result) h = cc

any-IsDelivered :
    (step : SignStep) (es : List Event)
    → any (same_step step) (deliveries es) ≡ true
    → IsDelivered step es
any-IsDelivered step [] h = cc
any-IsDelivered step (e ∷ es) h = elim (Bool-cases (any (same_step step) (step_of e))) [
  | inl f ↦ Any.head (step_of-eq step e f)
  | inr f ↦
      let split = any-append (same_step step) (step_of e) (deliveries es) in
      Any.tail (any-IsDelivered step es (ground arith))
]

IsDelivered-any :
    (step : SignStep) (es : List Event)
    → IsDelivered step es
    → any (same_step step) (deliveries es) ≡ true
IsDelivered-any step [] h = elim h [ ]
IsDelivered-any step (e ∷ es) (Any.head f) = rw (f, same_step_refl step) refl
IsDelivered-any step (e ∷ es) (Any.tail h) =
    let split = any-append (same_step step) (step_of e) (deliveries es) in
    ground (arith, IsDelivered-any step es h)

if_open-steps : (o : Outcome) (s : ActionState) → (if_open o s).steps ≡ s.steps
if_open-steps o s = elim (Bool-cases s.settled) [ inl e ↦ rw e refl | inr e ↦ rw e refl ]

module _ (lower : Str → Str) (contract : Str) where
  perform-steps :
      (e : Event) (s : ActionState) → (perform lower contract e s).steps ≡ s.steps ++ step_of e
  unfolding perform on_next
  perform-steps (next (pending build_context)) s = refl
  perform-steps (next (pending provide_context)) s = refl
  perform-steps (next (pending sign_typed_data_legacy)) s = refl
  perform-steps (next (pending (another_step n))) s = refl
  perform-steps (next (pending sign_typed_data)) s = elim (Bool-cases s.context_resolved) [
    | inl e ↦ rw e refl
    | inr e ↦ rw e refl
  ]
  perform-steps (next not_started) s = sym (append-nil s.steps)
  perform-steps (next stopped) s = if_open-steps _ s ∙ sym (append-nil s.steps)
  perform-steps (next (completed output)) s = if_open-steps _ s ∙ sym (append-nil s.steps)
  perform-steps (next (failed thrown)) s = if_open-steps _ s ∙ sym (append-nil s.steps)
  perform-steps (error thrown) s = if_open-steps _ s ∙ sym (append-nil s.steps)
  perform-steps complete s = if_open-steps _ s ∙ sym (append-nil s.steps)
  perform-steps begin s = sym (append-nil s.steps)
  perform-steps (filters context result) s = sym (append-nil s.steps)

  run_action-steps :
      (es : List Event) (s : ActionState)
      → (run_action lower contract es s).steps ≡ s.steps ++ deliveries es
  run_action-steps [] s = sym (append-nil s.steps)
  run_action-steps (e ∷ es) s =
      run_action-steps es (perform lower contract e s)
      ∙ ap (λ xs. xs ++ deliveries es) (perform-steps e s)
      ∙ append_assoc s.steps (step_of e) (deliveries es)

  -- A run from the start has recorded exactly the steps that were delivered.
  pub has_step_iff :
      (b : Bool) (es : List Event) (step : SignStep)
      → (has_step step (run_action lower contract es (started b)) ≡ true) ↔ IsDelivered step es
  has_step_iff b es step =
      let same = ap (any (same_step step)) (run_action-steps es (started b)) in
      (λ h. any-IsDelivered step es (sym same ∙ h), λ d. same ∙ IsDelivered-any step es d)
