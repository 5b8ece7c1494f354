-- ===== src/Ledger/StrictAction/Resolved.antt =====
-- When a strict action gives a signature.
use rovaulta.Ledger.StrictAction.Contexts.{IsResolvedAfter, run_action-context}
use rovaulta.Ledger.StrictAction.Deliveries.{IsDelivered, has_step_iff}
use rovaulta.Ledger.StrictAction.Settled.{
  run_action-outcome, IsConsistent, perform-IsConsistent, run_action-IsConsistent,
  if_open-outcome_open, run_action-append,
}
use rovaulta.Ledger.Errors.{clear_signing_unavailable, malformed_signature}
use rovaulta.Ledger.StrictAction.{
  Outcome, ActionState, Event, DeviceOutput, run_action, perform, next, none, false, completion,
  on_next, started, completed, true, if_open, pending, resolved, ◌∷◌, some, failed, sign_typed_data,
  to_canonical_signature, error, has_required_steps, rejected, filters, complete,
  clear_signing_unavailable, stopped, begin, sign_typed_data_legacy, another_step, not_started,
  build_context, provide_context,
}
use rovaulta.Prelude.{
  Str, List, Bool, ◌≡◌, none, false, ◌++◌, true, ◌∷◌, some, inl, sym, [], refl, inr, ◌∙◌, ap,
  Bool-cases, Option-cases, arith,
}

-- Whenever the device delivers its signing step, the last call on the context has resolved it.
abbrev pub IsGuarded : (Str → Str) → Str → List Event → ActionState → Type 0
IsGuarded lower contract es s =
    (before after : List Event)
    → es ≡ before ++ next (pending sign_typed_data) ∷ after
    → IsResolvedAfter lower contract s.context_resolved before

-- What happened before the completion that resolved the promise.
pub record IsStrict (lower : Str → Str) (contract : Str) (es : List Event) (s : ActionState)
    (signature : Str) : Type 0 where
  pub before : List Event
  pub output : DeviceOutput
  pub after : List Event
  pub events : es ≡ before ++ next (completed output) ∷ after
  pub signed : to_canonical_signature output ≡ some signature
  pub context_built : IsDelivered build_context before
  pub context_provided : IsDelivered provide_context before
  pub data_signed : IsDelivered sign_typed_data before
  pub no_legacy : ¬ IsDelivered sign_typed_data_legacy before
  pub guarded : IsGuarded lower contract before s

completion_lem :
    (s : ActionState) (output : DeviceOutput) (signature : Str)
    → completion s output ≡ resolved signature
    → (to_canonical_signature output ≡ some signature) × (has_required_steps s ≡ true)
completion_lem s output signature h = elim (Bool-cases (has_required_steps s)) [
  | inr e ↦
      absurd (let q : rejected clear_signing_unavailable ≡ resolved signature = rw e at h in cc)
  | inl e ↦ elim (Option-cases (to_canonical_signature output)) [
    | inl f ↦
        absurd (let q : rejected malformed_signature ≡ resolved signature = rw (e, f) at h in cc)
    | inr (found, f) ↦
        let q : resolved found ≡ resolved signature = rw (e, f) at h in
        let same : found ≡ signature = cc in (f ∙ ap some same, e)
  ]
]

module _ (lower : Str → Str) (contract : Str) where
  if_open-resolved :
      (o : Outcome) (s : ActionState) (signature : Str)
      → s.settled ≡ false
      → s.outcome ≡ none
      → (if_open o s).outcome ≡ some (resolved signature)
      → o ≡ resolved signature
  if_open-resolved o s signature e h k =
      let q : some o ≡ some (resolved signature) = sym (if_open-outcome_open o s e h) ∙ k in cc

  -- Only a completed device action resolves the promise.
  perform-resolved :
      (e : Event) (s : ActionState) (signature : Str)
      → s.settled ≡ false
      → s.outcome ≡ none
      → (perform lower contract e s).outcome ≡ some (resolved signature)
      → (output : DeviceOutput) × (e ≡ next (completed output))
        × (completion s output ≡ resolved signature)
  unfolding perform on_next
  perform-resolved (next not_started) s signature e h k = absurd (let q = sym h ∙ k in cc)
  perform-resolved (next stopped) s signature e h k =
      absurd (let q = if_open-resolved _ s signature e h k in cc)
  perform-resolved (next (pending sign_typed_data_legacy)) s signature e h k = absurd (
      let q : some (rejected clear_signing_unavailable) ≡ some (resolved signature) = rw h at k in
      cc)
  perform-resolved (next (pending sign_typed_data)) s signature e h k =
      absurd (elim (Bool-cases s.context_resolved) [
        | inl f ↦
            let q : s.outcome ≡ some (resolved signature) = rw f at k in let r = sym h ∙ q in cc
        | inr f ↦
            let q : some (rejected clear_signing_unavailable) ≡ some (resolved signature) =
              rw (f, h) at k in
            cc
      ])
  perform-resolved (next (pending build_context)) s signature e h k =
      absurd (let q = sym h ∙ k in cc)
  perform-resolved (next (pending provide_context)) s signature e h k =
      absurd (let q = sym h ∙ k in cc)
  perform-resolved (next (pending (another_step n))) s signature e h k =
      absurd (let q = sym h ∙ k in cc)
  perform-resolved (next (completed output)) s signature e h k =
      (output, refl, if_open-resolved _ s signature e h k)
  perform-resolved (next (failed thrown)) s signature e h k =
      absurd (let q = if_open-resolved _ s signature e h k in cc)
  perform-resolved (error thrown) s signature e h k =
      absurd (let q = if_open-resolved _ s signature e h k in cc)
  perform-resolved complete s signature e h k =
      absurd (let q = if_open-resolved _ s signature e h k in cc)
  perform-resolved begin s signature e h k = absurd (let q = sym h ∙ k in cc)
  perform-resolved (filters context result) s signature e h k = absurd (let q = sym h ∙ k in cc)

  -- The completion that resolved the promise of a run.
  find_completion :
      (es : List Event) (s : ActionState) (signature : Str)
      → IsConsistent s
      → s.outcome ≡ none
      → (run_action lower contract es s).outcome ≡ some (resolved signature)
      → (before : List Event) × (output : DeviceOutput) × (after : List Event) × (es
          ≡ before ++ next (completed output) ∷ after)
        × ((run_action lower contract before s).outcome ≡ none)
        × (completion (run_action lower contract before s) output ≡ resolved signature)
  find_completion [] s signature k h r = absurd (let q = sym h ∙ r in cc)
  find_completion (e ∷ es) s signature k h r =
      elim (Option-cases ((perform lower contract e s).outcome)) [
        | inl q ↦
            let (before, output, after, split, open_, done) =
              find_completion es (perform lower contract e s) signature
                (perform-IsConsistent lower contract e s k) q r in
            (e ∷ before, output, after, ap (λ xs. e ∷ xs) split, open_, done)
        | inr (o, q) ↦
            let stays = run_action-outcome lower contract es (perform lower contract e s) o q in
            let same : some o ≡ some (resolved signature) = sym stays ∙ r in
            let (output, is, done) = perform-resolved e s signature ((k h).0) h (q ∙ same) in
            ([], output, es, ap (λ x. x ∷ es) is, h, done)
      ]

  -- A device that signs while the context is not resolved settles the promise.
  sign_settles :
      (s : ActionState)
      → s.context_resolved ≡ false
      → s.outcome ≡ none
      → (perform lower contract (next (pending sign_typed_data)) s).outcome
        ≡ some (rejected clear_signing_unavailable)
  unfolding perform on_next
  sign_settles s e h = rw (e, h) refl

  guarded_lem :
      (es : List Event) (s : ActionState)
      → (run_action lower contract es s).outcome ≡ none
      → IsGuarded lower contract es s
  guarded_lem es s h before after split =
      let mid = run_action lower contract before s in
      let whole : (run_action lower contract (next (pending sign_typed_data) ∷ after) mid).outcome
          ≡ none =
        ap (λ (x : ActionState). x.outcome)
          (sym (run_action-append lower contract before (next (pending sign_typed_data) ∷ after) s))
        ∙ ap (λ xs. (run_action lower contract xs s).outcome) (sym split)
        ∙ h in
      elim (Bool-cases mid.context_resolved) [
        | inl e ↦ run_action-context lower contract before s e
        | inr e ↦ elim (Option-cases mid.outcome) [
          | inl n ↦
              let done = run_action-outcome lower contract after _ _ (sign_settles mid e n) in
              absurd (let q = sym done ∙ whole in cc)
          | inr (o, n) ↦
              let done =
                run_action-outcome lower contract (next (pending sign_typed_data) ∷ after) mid o
                  n in
              absurd (let q = sym done ∙ whole in cc)
        ]
      ]

  -- A strict action that resolves with a signature, under any sequence of deliveries by the
  -- device and of calls on the signing context, has seen a completion with this signature. Before
  -- it the device delivered the three steps of the Clear Signing path (building the context,
  -- providing it, signing the typed data) and never the legacy step; and whenever it delivered the
  -- signing step, the last call on the context so far was for the registry's contract on Sepolia
  -- and the fields of an intent, with one filter for each of these fields and no other, or there
  -- was no call and the context was resolved at the start.
  pub run_action-IsStrict :
      (b : Bool) (es : List Event) (signature : Str)
      → (run_action lower contract es (started b)).outcome ≡ some (resolved signature)
      → IsStrict lower contract es (started b) signature
  run_action-IsStrict b es signature h =
      let fresh : IsConsistent (started b) = λ k. (refl, refl) in
      let (before, output, after, split, open_, done) =
        find_completion es (started b) signature fresh refl h in
      let (signed, required) =
        completion_lem (run_action lower contract before (started b)) output signature done in
      let open_lem = run_action-IsConsistent lower contract before (started b) fresh open_ in
      record {
        before = before;
        output = output;
        after = after;
        events = split;
        signed = signed;
        context_built = (has_step_iff lower contract b before build_context).0 (ground arith);
        context_provided = (has_step_iff lower contract b before provide_context).0 (ground arith);
        data_signed = (has_step_iff lower contract b before sign_typed_data).0 (ground arith);
        no_legacy = λ d.
            let seen = (has_step_iff lower contract b before sign_typed_data_legacy).1 d in
            absurd (let q = sym (open_lem.1) ∙ seen in cc);
        guarded = guarded_lem before (started b) open_;
      }
