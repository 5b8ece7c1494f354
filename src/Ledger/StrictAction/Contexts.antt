-- ===== src/Ledger/StrictAction/Contexts.antt =====
-- The call on the signing context (packages/ledger-gate/src/clear-signing-context.ts) after which a
-- strict action holds the context as resolved.
use rovaulta.Ledger.Context.Exact.{get_typed_data_filters-IsExactContext, IsExactContext}
use rovaulta.Ledger.Context.{TypedDataContext, TypedDataClearSignContext, get_typed_data_filters}
use rovaulta.Ledger.StrictAction.{
  Event, Outcome, filters, ActionState, perform, true, if_open, on_next, run_action, begin,
  TypedDataContext, ◌∷◌, [], next, pending, another_step, completed, failed, error, complete,
  not_started, stopped, build_context, provide_context, sign_typed_data_legacy, sign_typed_data,
  false,
}
use rovaulta.Prelude.{
  Str, Bool, List, ◌≡◌, true, All, Bool-cases, ◌⊎◌, inl, inr, ap, refl, ◌++◌, [], sym, ◌∙◌, false,
}

-- The event is no call on the context.
abbrev pub IsNoCall : Event → Type 0
IsNoCall begin = ⊥
IsNoCall (filters context result) = ⊥
IsNoCall _ = Unit

-- The last call on the context asked for filters and is an exact one; or the context was resolved at
-- the start and there is no call.
abbrev pub IsResolvedAfter : (Str → Str) → Str → Bool → List Event → Type 0
IsResolvedAfter lower contract start es =
    ((start ≡ true) × All IsNoCall es)
    ⊎ ((before : List Event) × (context : TypedDataContext) × (result : TypedDataClearSignContext)
        × (after : List Event) × (es ≡ before ++ filters context result ∷ after)
        × IsExactContext lower contract context result
        × All IsNoCall after)

if_open-context :
    (o : Outcome) (s : ActionState) → (if_open o s).context_resolved ≡ s.context_resolved
if_open-context o s = elim (Bool-cases s.settled) [ inl e ↦ rw e refl | inr e ↦ rw e refl ]

module _ (lower : Str → Str) (contract : Str) where
  -- What an event does to the context.
  perform-context :
      (e : Event) (s : ActionState)
      → (perform lower contract e s).context_resolved ≡ true
      → ((s.context_resolved ≡ true) × IsNoCall e)
        ⊎ ((context : TypedDataContext) × (result : TypedDataClearSignContext) × (e
              ≡ filters context result)
            × (get_typed_data_filters lower contract context result ≡ true))
  unfolding perform on_next
  perform-context (next not_started) s h = inl (h, tt)
  perform-context (next (pending build_context)) s h = inl (h, tt)
  perform-context (next (pending provide_context)) s h = inl (h, tt)
  perform-context (next (pending sign_typed_data_legacy)) s h = inl (h, tt)
  perform-context (next (pending (another_step n))) s h = inl (h, tt)
  perform-context (next (pending sign_typed_data)) s h = elim (Bool-cases s.context_resolved) [
    | inl e ↦ inl (e, tt)
    | inr e ↦ absurd (let q : false ≡ true = rw e at h in cc)
  ]
  perform-context (next stopped) s h = inl (sym (if_open-context _ s) ∙ h, tt)
  perform-context (next (completed output)) s h = inl (sym (if_open-context _ s) ∙ h, tt)
  perform-context (next (failed thrown)) s h = inl (sym (if_open-context _ s) ∙ h, tt)
  perform-context (error thrown) s h = inl (sym (if_open-context _ s) ∙ h, tt)
  perform-context complete s h = inl (sym (if_open-context _ s) ∙ h, tt)
  perform-context begin s h = cc
  perform-context (filters context result) s h = inr (context, result, refl, h)

  pub run_action-context :
      (es : List Event) (s : ActionState)
      → (run_action lower contract es s).context_resolved ≡ true
      → IsResolvedAfter lower contract s.context_resolved es
  run_action-context [] s h = inl (h, tt)
  run_action-context (e ∷ es) s h = elim (run_action-context es (perform lower contract e s) h) [
    | inr (before, context, result, after, split, found, rest) ↦
        inr (e ∷ before, context, result, after, ap (λ xs. e ∷ xs) split, found, rest)
    | inl (now, rest) ↦ elim (perform-context e s now) [
      | inl (start, none_) ↦ inl (start, (none_, rest))
      | inr (context, result, is, found) ↦ inr (
        [],
        context,
        result,
        es,
        ap (λ x. x ∷ es) is,
        get_typed_data_filters-IsExactContext lower contract context result found,
        rest,
      )
    ]
  ]
