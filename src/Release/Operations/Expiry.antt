-- ===== src/Release/Operations/Expiry.antt =====
-- The expiry that `prepare` computes, the intent that it makes, and the row that it adds.
use mathlib.Core.Path.{subst}
use rovaulta.Domain.ReleaseSchemas.Intent.{
  parse_deployment_intent-same, parse_deployment_intent-of_intent,
  parse_deployment_intent-IsValidIntent,
}
use rovaulta.Release.NonceStore.{StoredReleaseRequest, issue, Row, has_nonce, issued}
use rovaulta.Release.Operations.{StoredReleaseRequest}
use rovaulta.Domain.Bindings.Intent.{IsBoundTo, intent_bindings_sound}
use rovaulta.Domain.ReleaseSchemas.{parse_clearance_record, parse_deployment_intent}
use rovaulta.Domain.Digests.{Platform, digest_clearance}
use rovaulta.Domain.Bindings.{create_deployment_intent, DeploymentIntentParameters}
use rovaulta.Chain.Numbers.Decimal.{to_number-show_bigint}
use rovaulta.Domain.Value.{str, Value}
use rovaulta.Domain.Timestamps.Accepts.{parse_unix_timestamp_iff}
use rovaulta.Chain.Numbers.{show_bigint}
use rovaulta.Domain.Timestamps.{to_number}
use rovaulta.Errors.{
  ok, >>-eq-ok, reject, release, clearance_expired, reject_passed, bind_parts, ok-injective,
  fail_release, persistence_unavailable,
}
use rovaulta.Domain.Records.{ClearanceRecord, DeploymentIntent, of_clearance, of_intent}
use rovaulta.Chain.Registry.{ClearanceRegistrySnapshot}
use rovaulta.Release.Service.{compute_expiry}
use rovaulta.Prelude.{
  Str, ℕ, ◌≡◌, ◌<◌, ◌≤◌, ◌+◌, if◌then◌else◌, ltb, leb, sym, ◌∙◌, ap, false, Bool-cases, inl, arith,
  inr, List, refl, Bool, any, ◌++◌, ◌∷◌, none, [], true,
}

limit_lem :
    (now ttl expiry : ℕ)
    → leb (if ltb (now + ttl) expiry then now + ttl else expiry) now ≡ false
    → (now < (if ltb (now + ttl) expiry then now + ttl else expiry))
      × ((if ltb (now + ttl) expiry then now + ttl else expiry) ≤ now + ttl)
      × ((if ltb (now + ttl) expiry then now + ttl else expiry) ≤ expiry)
limit_lem now ttl expiry h = elim (Bool-cases (ltb (now + ttl) expiry)) [
  | inl e ↦ ground arith
  | inr e ↦ ground arith
]

pub compute_expiry-bounds :
    (snapshot : ClearanceRegistrySnapshot) (clearance : ClearanceRecord) (ttl : ℕ) (s : Str)
    → compute_expiry snapshot clearance ttl ≡ ok s
    → (to_number snapshot.block_timestamp < to_number s)
      × (to_number s ≤ to_number snapshot.block_timestamp + ttl)
      × (to_number s ≤ to_number clearance.expires_at)
unfolding compute_expiry
compute_expiry-bounds snapshot clearance ttl s h =
    let now = to_number snapshot.block_timestamp in
    let expiry = to_number clearance.expires_at in
    let e : ℕ = if ltb (now + ttl) expiry then now + ttl else expiry in
    let (k, h1) = >>-eq-ok (reject (leb e now) (release clearance_expired)) _ h in
    let q = reject_passed (leb e now) _ k in
    let same : show_bigint e ≡ s =
      let (f, t) = (parse_unix_timestamp_iff (str (show_bigint e)) s).0 h1 in cc in
    let number : e ≡ to_number s = sym (to_number-show_bigint e) ∙ ap to_number same in
    rw (sym number) (limit_lem now ttl expiry q)

pub create_deployment_intent-same :
    (p : Platform) (v : Value) (q : DeploymentIntentParameters) (i : DeploymentIntent)
    → create_deployment_intent p v q ≡ ok i
    → (c : ClearanceRecord) × (parse_clearance_record v ≡ ok c)
      × ((d : ClearanceRecord) × (parse_clearance_record (of_clearance c) ≡ ok d) × IsBoundTo p i d)
      × (i.nonce ≡ q.nonce)
      × (i.issued_at ≡ q.issued_at)
      × (i.expires_at ≡ q.expires_at)
      × (parse_deployment_intent (of_intent i) ≡ ok i)
unfolding create_deployment_intent
create_deployment_intent-same p v q i h =
    let (c, e, h1) = bind_parts (parse_clearance_record v) _ h in
    let (digest, f, h2) = bind_parts (digest_clearance p (of_clearance c)) _ h1 in
    let (made, g, h3) = bind_parts (parse_deployment_intent _) _ h2 in
    let (d, read, parsed, bound) = intent_bindings_sound p (of_intent made) (of_clearance c) i h3 in
    let (n, a, b) = parse_deployment_intent-same _ made g in
    let again =
      parse_deployment_intent-of_intent made (parse_deployment_intent-IsValidIntent _ made g) in
    let same : made ≡ i = ok-injective (sym again ∙ read) in
    (
      c,
      e,
      (d, parsed, bound),
      ap (λ (x : DeploymentIntent). x.nonce) (sym same) ∙ sym n,
      ap (λ (x : DeploymentIntent). x.issued_at) (sym same) ∙ sym a,
      ap (λ (x : DeploymentIntent). x.expires_at) (sym same) ∙ sym b,
      subst (λ (x : DeploymentIntent). parse_deployment_intent (of_intent x) ≡ ok x) same again,
    )

pub issue_ok :
    (b : Bool) (r : StoredReleaseRequest) (rows : List Row)
    → (issue b r rows).0 ≡ ok tt
    → (any (has_nonce r.nonce) rows ≡ false)
      × ((issue b r rows).1
          ≡ rows ++ record { request = r; state = issued; authorization_json = none } ∷ [])
unfolding issue
issue_ok false r rows h = absurd (let q : fail_release persistence_unavailable ≡ ok tt = h in cc)
issue_ok true r rows h = elim (Bool-cases (any (has_nonce r.nonce) rows)) [
  | inl c ↦ absurd (let q : fail_release persistence_unavailable ≡ ok tt = rw c at h in cc)
  | inr c ↦ (c, rw c refl)
]
