-- ===== src/Domain/Bindings/Intent.antt =====
-- What an intent that passes the binding checks says of its clearance.
use rovaulta.Domain.Timestamps.{is_after, compare_unix_timestamps}
use rovaulta.Domain.ReleaseSchemas.{parse_deployment_intent, parse_clearance_record}
use rovaulta.Errors.{ok, Result-cases}
use rovaulta.Domain.Value.{Value}
use rovaulta.Domain.Bindings.{
  assert_deployment_intent_bindings, ClearanceRecord, Value, digest_clearance, ok, of_clearance,
  parse_deployment_intent, is_before, parse_clearance_record, false, is_after,
  compare_unix_timestamps, true,
}
use rovaulta.Domain.Records.{DeploymentIntent, ClearanceRecord, of_clearance}
use rovaulta.Domain.Digests.{Platform, digest_clearance}
use rovaulta.Prelude.{◌≡◌, false, inl, inr, arith, eq_of_str_eq, ◌∙◌, ap, sym, true}

-- The intent names the clearance, its site, robot and build, and lies within its validity.
pub record IsBoundTo (p : Platform) (i : DeploymentIntent) (c : ClearanceRecord) : Type 0 where
  pub site : i.site_id ≡ c.inputs.site_id
  pub robot : i.robot_id ≡ c.inputs.robot_id
  pub build : i.robot_build_id ≡ c.inputs.robot_build_id
  pub build_digest : i.robot_build_digest ≡ c.inputs.robot_build_digest
  pub clearance : i.clearance_id ≡ c.clearance_id
  pub clearance_digest : digest_clearance p (of_clearance c) ≡ ok i.clearance_digest
  pub not_before : is_before i.issued_at c.issued_at ≡ false
  pub not_after : is_after (compare_unix_timestamps i.expires_at c.expires_at) ≡ false

module _ (p : Platform) where
  -- An intent that passes the check is the one that is read from the first value, and is bound to
  -- the clearance that is read from the second: both parse, all names and digests agree, and it is
  -- neither issued before the clearance nor expires after it.
  pub intent_bindings_sound :
      (v w : Value) (i : DeploymentIntent)
      → assert_deployment_intent_bindings p v w ≡ ok i
      → (c : ClearanceRecord) × (parse_deployment_intent v ≡ ok i)
        × (parse_clearance_record w ≡ ok c)
        × IsBoundTo p i c
  unfolding assert_deployment_intent_bindings
  intent_bindings_sound v w i h = elim (Result-cases (parse_clearance_record w)) [
    | inl (c, e) ↦ elim (Result-cases (digest_clearance p (of_clearance c))) [
      | inl (d, f) ↦
          let parsed : parse_deployment_intent v ≡ ok i = ground arith in
          (
            c,
            parsed,
            e,
            record {
              site = eq_of_str_eq i.site_id c.inputs.site_id (ground arith);
              robot = eq_of_str_eq i.robot_id c.inputs.robot_id (ground arith);
              build = eq_of_str_eq i.robot_build_id c.inputs.robot_build_id (ground arith);
              build_digest =
                  eq_of_str_eq i.robot_build_digest c.inputs.robot_build_digest (ground arith);
              clearance = eq_of_str_eq i.clearance_id c.clearance_id (ground arith);
              clearance_digest = f ∙ ap ok (sym (eq_of_str_eq i.clearance_digest d (ground arith)));
              not_before = ground arith;
              not_after = ground arith;
            },
          )
      | inr (x, f) ↦ absurd (let q : false ≡ true = ground arith in cc)
    ]
    | inr (x, e) ↦ absurd (let q : false ≡ true = ground arith in cc)
  ]
