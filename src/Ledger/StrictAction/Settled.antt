-- ===== src/Ledger/StrictAction/Settled.antt =====
-- The promise of a strict action (packages/ledger-gate/src/strict-action.ts) when the stream ends.
use rovaulta.Ledger.StrictAction.{
  Outcome, ActionState, SignStep, Option, if_open, any, same_step, perform, Event, some, false,
  none, settle_with, sign_typed_data_legacy, on_next, run_action, has_step, push_step, next, ◌∷◌,
  [], pending, another_step, completed, failed, error, filters, complete, begin, not_started,
  stopped, sign_typed_data, build_context, provide_context, Bool, true, started,
}
use rovaulta.Prelude.{
  Str, List, ◌≡◌, Option, any, Bool-cases, some, false, none, ◌++◌, inl, ◌∷◌, inr, ◌∙◌, [], ◌||◌,
  arith, refl, Bool, true, ap, Option-cases,
}

settle_with-some : (o p : Outcome) (q : Option Outcome) → q ≡ some p → settle_with o q ≡ some p
settle_with-some o p none h = cc
settle_with-some o p (some x) h = h

if_open-outcome :
    (o p : Outcome) (s : ActionState) → s.outcome ≡ some p → (if_open o s).outcome ≡ some p
if_open-outcome o p s h = elim (Bool-cases s.settled) [
  | inl e ↦ rw e h
  | inr e ↦ rw e (settle_with-some o p s.outcome h)
]

pub if_open-outcome_open :
    (o : Outcome) (s : ActionState)
    → s.settled ≡ false
    → s.outcome ≡ none
    → (if_open o s).outcome ≡ some o
if_open-outcome_open o s e h = rw (e, h) refl

-- Nothing has been settled: the legacy step was not seen.
abbrev pub IsOpen : ActionState → Type 0
IsOpen s = (s.settled ≡ false) × (has_step sign_typed_data_legacy s ≡ false)

-- A promise that is not settled is open.
abbrev pub IsConsistent : ActionState → Type 0
IsConsistent s = s.outcome ≡ none → IsOpen s

settle_with-none : (o : Outcome) (q : Option Outcome) → settle_with o q ≡ none → ⊥
settle_with-none o none h = cc
settle_with-none o (some x) h = cc

if_open-IsConsistent : (o : Outcome) (s : ActionState) → IsConsistent s → IsConsistent (if_open o s)
if_open-IsConsistent o s k h = elim (Bool-cases s.settled) [
  | inl e ↦ absurd (let q : s.outcome ≡ none = rw e at h in let (f, g) = k q in cc)
  | inr e ↦ absurd (settle_with-none o s.outcome (rw e at h))
]

append_any :
    (step x : SignStep) (xs : List SignStep)
    → any (same_step step) (xs ++ x ∷ []) ≡ (any (same_step step) xs || same_step step x)
append_any step x [] = ground arith
append_any step x (y ∷ ys) = ground (arith, append_any step x ys)

push_step-IsConsistent :
    (step : SignStep) (s : ActionState)
    → same_step sign_typed_data_legacy step ≡ false
    → IsConsistent s
    → IsConsistent (push_step step s)
push_step-IsConsistent step s e k h =
    let (f, g) = k h in (f, append_any sign_typed_data_legacy step s.steps ∙ rw (g, e) refl)

module _ (lower : Str → Str) (contract : Str) where
  pub perform-outcome :
      (e : Event) (s : ActionState) (o : Outcome)
      → s.outcome ≡ some o
      → (perform lower contract e s).outcome ≡ some o
  unfolding perform on_next
  perform-outcome (next not_started) s o h = h
  perform-outcome (next stopped) s o h = if_open-outcome _ o s h
  perform-outcome (next (pending sign_typed_data_legacy)) s o h = settle_with-some _ o _ h
  perform-outcome (next (pending sign_typed_data)) s o h = elim (Bool-cases s.context_resolved) [
    | inl e ↦ rw e h
    | inr e ↦ rw e (settle_with-some _ o _ h)
  ]
  perform-outcome (next (pending build_context)) s o h = h
  perform-outcome (next (pending provide_context)) s o h = h
  perform-outcome (next (pending (another_step n))) s o h = h
  perform-outcome (next (completed output)) s o h = if_open-outcome _ o s h
  perform-outcome (next (failed thrown)) s o h = if_open-outcome _ o s h
  perform-outcome (error thrown) s o h = if_open-outcome _ o s h
  perform-outcome complete s o h = if_open-outcome _ o s h
  perform-outcome begin s o h = h
  perform-outcome (filters context result) s o h = h

  -- A promise that is settled keeps its outcome.
  pub run_action-outcome :
      (es : List Event) (s : ActionState) (o : Outcome)
      → s.outcome ≡ some o
      → (run_action lower contract es s).outcome ≡ some o
  run_action-outcome [] s o h = h
  run_action-outcome (e ∷ es) s o h =
      run_action-outcome es (perform lower contract e s) o (perform-outcome e s o h)

  pub perform-IsConsistent :
      (e : Event) (s : ActionState) → IsConsistent s → IsConsistent (perform lower contract e s)
  unfolding perform on_next
  perform-IsConsistent (next not_started) s k = k
  perform-IsConsistent (next stopped) s k = if_open-IsConsistent _ s k
  perform-IsConsistent (next (pending sign_typed_data_legacy)) s k =
      λ h. absurd (settle_with-none _ s.outcome h)
  perform-IsConsistent (next (pending sign_typed_data)) s k = elim (Bool-cases s.context_resolved) [
    | inl e ↦ rw e (push_step-IsConsistent sign_typed_data s refl k)
    | inr e ↦ rw e (λ h. absurd (settle_with-none _ s.outcome h))
  ]
  perform-IsConsistent (next (pending build_context)) s k =
      push_step-IsConsistent build_context s refl k
  perform-IsConsistent (next (pending provide_context)) s k =
      push_step-IsConsistent provide_context s refl k
  perform-IsConsistent (next (pending (another_step n))) s k =
      push_step-IsConsistent (another_step n) s refl k
  perform-IsConsistent (next (completed output)) s k = if_open-IsConsistent _ s k
  perform-IsConsistent (next (failed thrown)) s k = if_open-IsConsistent _ s k
  perform-IsConsistent (error thrown) s k = if_open-IsConsistent _ s k
  perform-IsConsistent complete s k = if_open-IsConsistent _ s k
  perform-IsConsistent begin s k = k
  perform-IsConsistent (filters context result) s k = k

  pub run_action-IsConsistent :
      (es : List Event) (s : ActionState)
      → IsConsistent s
      → IsConsistent (run_action lower contract es s)
  run_action-IsConsistent [] s k = k
  run_action-IsConsistent (e ∷ es) s k =
      run_action-IsConsistent es (perform lower contract e s) (perform-IsConsistent e s k)

  pub run_action-append :
      (es fs : List Event) (s : ActionState)
      → run_action lower contract (es ++ fs) s
        ≡ run_action lower contract fs (run_action lower contract es s)
  run_action-append [] fs s = refl
  run_action-append (e ∷ es) fs s = run_action-append es fs (perform lower contract e s)

  -- What ends the stream of a device.
  abbrev pub is_end : Event → Bool
  is_end (next (completed output)) = true
  is_end (next (failed thrown)) = true
  is_end (next stopped) = true
  is_end (error thrown) = true
  is_end complete = true
  is_end _ = false

  end_settles :
      (e : Event) (s : ActionState)
      → is_end e ≡ true
      → s.settled ≡ false
      → s.outcome ≡ none
      → (o : Outcome) × ((perform lower contract e s).outcome ≡ some o)
  unfolding perform on_next
  end_settles (next (completed output)) s h e n = (_, if_open-outcome_open _ s e n)
  end_settles (next (failed thrown)) s h e n = (_, if_open-outcome_open _ s e n)
  end_settles (next stopped) s h e n = (_, if_open-outcome_open _ s e n)
  end_settles (error thrown) s h e n = (_, if_open-outcome_open _ s e n)
  end_settles complete s h e n = (_, if_open-outcome_open _ s e n)
  end_settles (next not_started) s h e n = cc
  end_settles (next (pending step)) s h e n = cc
  end_settles begin s h e n = cc
  end_settles (filters context result) s h e n = cc

  -- Once the device's stream has delivered an end (a completion, a failure, a stop, an error or
  -- its own end), whatever came before and comes after, the promise of a strict action is settled.
  pub run_action-settles :
      (b : Bool) (es : List Event) (e : Event) (fs : List Event)
      → is_end e ≡ true
      → (o : Outcome) × ((run_action lower contract (es ++ e ∷ fs) (started b)).outcome ≡ some o)
  run_action-settles b es e fs h =
      let s = run_action lower contract es (started b) in
      let split = run_action-append es (e ∷ fs) (started b) in
      let fresh : IsConsistent (started b) = λ k. (refl, refl) in
      let (o, q) : (o : Outcome) × ((perform lower contract e s).outcome ≡ some o) =
        elim (Option-cases s.outcome) [
          | inl n ↦ end_settles e s h ((run_action-IsConsistent es (started b) fresh n).0) n
          | inr (o, n) ↦ (o, perform-outcome e s o n)
        ] in
      (
        o,
        ap (λ (x : ActionState). x.outcome) split
            ∙ run_action-outcome fs (perform lower contract e s) o q,
      )
