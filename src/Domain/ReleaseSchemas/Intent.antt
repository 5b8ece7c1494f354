-- ===== src/Domain/ReleaseSchemas/Intent.antt =====
-- Deployment intents: their parser accepts exactly the valid ones.
use mathlib.Core.Path.{subst, sym}
use rovaulta.Domain.Identifiers.{
  parse_site_id, parse_robot_id, parse_robot_build_id, parse_sha256_digest, parse_clearance_id,
  parse_deployment_nonce,
}
use rovaulta.Domain.Timestamps.{to_number, parse_unix_timestamp, parse_expiry}
use rovaulta.Domain.Timestamps.Accepts.{IsTimestamp, parse_unix_timestamp_iff, parse_expiry_iff}
use rovaulta.Domain.Schemas.{expect_schema, is_text}
use rovaulta.Domain.Identifiers.Digests.{
  IsSha256, IsNonce, parse_sha256_digest_iff, parse_deployment_nonce_iff, parse_sha256_digest-str,
}
use rovaulta.Errors.{ok, bind_parts, >>-eq-ok, require, protocol, ok-injective}
use rovaulta.Domain.Identifiers.Accepts.{IsIdentifier, parse_identifier_iff, parse_identifier-str}
use rovaulta.Domain.Schemas.Exact.{
  HasVersion, expect_schema-HasVersion, expect_schema-object, expect_schema-fields,
}
use rovaulta.Domain.ReleaseSchemas.{
  parse_deployment_intent, get, Value, codes, ok, expect_schema, intent_keys, intent_bindings,
  require, is_text, protocol, malformed_object, parse_unix_timestamp, parse_site_id, parse_expiry,
  Str,
}
use rovaulta.Domain.Value.{Fields, get, Value, str}
use rovaulta.Domain.Records.{DeploymentIntent, of_intent}
use rovaulta.Prelude.{◌≡◌, codes, ◌<◌, arith, Str, refl, sym}

pub record IsValidIntent (i : DeploymentIntent) : Type 0 where
  pub version : HasVersion (codes "deployment-intent/v2") i.schema_version
  pub site : IsIdentifier (codes "site") i.site_id
  pub robot : IsIdentifier (codes "robot") i.robot_id
  pub build : IsIdentifier (codes "robot-build") i.robot_build_id
  pub build_digest : IsSha256 i.robot_build_digest
  pub clearance : IsIdentifier (codes "clearance") i.clearance_id
  pub digest : IsSha256 i.clearance_digest
  pub nonce : IsNonce i.nonce
  pub issued : IsTimestamp i.issued_at
  pub expires : IsTimestamp i.expires_at
  pub in_order : to_number i.issued_at < to_number i.expires_at

-- Every field of an intent is the text of its property.
pub record IsReadFrom (fs : Fields) (i : DeploymentIntent) : Type 0 where
  pub site : get (codes "siteId") fs ≡ str i.site_id
  pub robot : get (codes "robotId") fs ≡ str i.robot_id
  pub build : get (codes "robotBuildId") fs ≡ str i.robot_build_id
  pub build_digest : get (codes "robotBuildDigest") fs ≡ str i.robot_build_digest
  pub clearance : get (codes "clearanceId") fs ≡ str i.clearance_id
  pub digest : get (codes "clearanceDigest") fs ≡ str i.clearance_digest
  pub nonce : get (codes "nonce") fs ≡ str i.nonce
  pub issued : get (codes "issuedAt") fs ≡ str i.issued_at
  pub expires : get (codes "expiresAt") fs ≡ str i.expires_at

intent_parts :
    (v : Value) (i : DeploymentIntent)
    → parse_deployment_intent v ≡ ok i
    → (fs : Fields) × (expect_schema (codes "deployment-intent/v2") intent_keys intent_bindings v
        ≡ ok (fs, i.schema_version))
      × IsValidIntent i
      × IsReadFrom fs i
unfolding parse_deployment_intent
intent_parts v i h =
    let ((fs, version), e, h1) =
      bind_parts (expect_schema (codes "deployment-intent/v2") intent_keys intent_bindings v) _ h in
    let (k1, h2) =
      >>-eq-ok
        (require (is_text (get (codes "action") fs) (codes "ACTIVATE_DEPLOYMENT"))
          (protocol malformed_object))
        _ h1 in
    let (k2, h3) =
      >>-eq-ok
        (require (is_text (get (codes "targetEnvironment") fs) (codes "sepolia"))
          (protocol malformed_object))
        _ h2 in
    let (issued_at, e1, h4) = bind_parts (parse_unix_timestamp (get (codes "issuedAt") fs)) _ h3 in
    let (site, e2, h5) = bind_parts (parse_site_id (get (codes "siteId") fs)) _ h4 in
    let (robot, e3, h6) = bind_parts (parse_robot_id (get (codes "robotId") fs)) _ h5 in
    let (build, e4, h7) = bind_parts (parse_robot_build_id (get (codes "robotBuildId") fs)) _ h6 in
    let (digest, e5, h8) =
      bind_parts (parse_sha256_digest (get (codes "robotBuildDigest") fs)) _ h7 in
    let (clearance, e6, h9) = bind_parts (parse_clearance_id (get (codes "clearanceId") fs)) _ h8 in
    let (clearance_digest, e7, h10) =
      bind_parts (parse_sha256_digest (get (codes "clearanceDigest") fs)) _ h9 in
    let (nonce, e8, h11) = bind_parts (parse_deployment_nonce (get (codes "nonce") fs)) _ h10 in
    let (expires_at, e9, h12) =
      bind_parts (parse_expiry (get (codes "expiresAt") fs) issued_at) _ h11 in
    let f1 = (parse_unix_timestamp_iff _ _).0 e1 in
    let f2 = (parse_identifier_iff (codes "site") _ _ (omega arith)).0 e2 in
    let f3 = (parse_identifier_iff (codes "robot") _ _ (omega arith)).0 e3 in
    let f4 = (parse_identifier_iff (codes "robot-build") _ _ (omega arith)).0 e4 in
    let f5 = (parse_sha256_digest_iff _ _).0 e5 in
    let f6 = (parse_identifier_iff (codes "clearance") _ _ (omega arith)).0 e6 in
    let f7 = (parse_sha256_digest_iff _ _).0 e7 in
    let f8 = (parse_deployment_nonce_iff _ _).0 e8 in
    let f9 = ((parse_expiry_iff (get (codes "expiresAt") fs) issued_at f1.1.0).0 expires_at).0 e9 in
    let j : DeploymentIntent = record {
      schema_version = version;
      site_id = site;
      robot_id = robot;
      robot_build_id = build;
      robot_build_digest = digest;
      clearance_id = clearance;
      clearance_digest = clearance_digest;
      nonce = nonce;
      issued_at = issued_at;
      expires_at = expires_at;
    } in
    let valid : IsValidIntent j = record {
      version = expect_schema-HasVersion _ _ _ _ e;
      site = f2.1;
      robot = f3.1;
      build = f4.1;
      build_digest = f5.1;
      clearance = f6.1;
      digest = f7.1;
      nonce = f8.1;
      issued = f1.1;
      expires = f9.1;
      in_order = f9.2;
    } in
    let read : IsReadFrom fs j = record {
      site = f2.0;
      robot = f3.0;
      build = f4.0;
      build_digest = f5.0;
      clearance = f6.0;
      digest = f7.0;
      nonce = f8.0;
      issued = f1.0;
      expires = f9.0;
    } in
    subst
      (λ (q : DeploymentIntent).
        (fs : Fields) × (expect_schema (codes "deployment-intent/v2") intent_keys intent_bindings v
          ≡ ok (fs, q.schema_version))
        × IsValidIntent q
        × IsReadFrom fs q)
      (ok-injective h12) (fs, e, valid, read)

-- Of whatever value, what `parseDeploymentIntent` returns has a supported schema version,
-- identifiers of the field's prefix, canonical digests, a canonical nonce, and two timestamps of
-- which the expiry is the later.
pub parse_deployment_intent-IsValidIntent :
    (v : Value) (i : DeploymentIntent) → parse_deployment_intent v ≡ ok i → IsValidIntent i
parse_deployment_intent-IsValidIntent v i h = (intent_parts v i h).2

pub parse_expiry-str :
    (r issued_at : Str)
    → IsTimestamp issued_at
    → IsTimestamp r
    → to_number issued_at < to_number r
    → parse_expiry (str r) issued_at ≡ ok r
parse_expiry-str r issued_at h k l = ((parse_expiry_iff (str r) issued_at h.0).0 r).1 (refl, k, l)

-- An intent that is valid in this sense, written out as a plain object, is read back unchanged.
pub parse_deployment_intent-of_intent :
    (i : DeploymentIntent) → IsValidIntent i → parse_deployment_intent (of_intent i) ≡ ok i
unfolding parse_deployment_intent
parse_deployment_intent-of_intent i h = rw (
  expect_schema-object (codes "deployment-intent/v2") intent_keys intent_bindings i.schema_version _
      h.version refl refl refl,
  (parse_unix_timestamp_iff (str i.issued_at) i.issued_at).1 (refl, h.issued),
  parse_identifier-str (codes "site") i.site_id (omega arith) h.site,
  parse_identifier-str (codes "robot") i.robot_id (omega arith) h.robot,
  parse_identifier-str (codes "robot-build") i.robot_build_id (omega arith) h.build,
  parse_sha256_digest-str i.robot_build_digest h.build_digest,
  parse_identifier-str (codes "clearance") i.clearance_id (omega arith) h.clearance,
  parse_sha256_digest-str i.clearance_digest h.digest,
  (parse_deployment_nonce_iff (str i.nonce) i.nonce).1 (refl, h.nonce),
  parse_expiry-str i.expires_at i.issued_at h.issued h.expires h.in_order,
)

-- What is read from an intent that is written out has the intent's own nonce and timestamps.
pub parse_deployment_intent-same :
    (i j : DeploymentIntent)
    → parse_deployment_intent (of_intent i) ≡ ok j
    → (i.nonce ≡ j.nonce) × (i.issued_at ≡ j.issued_at) × (i.expires_at ≡ j.expires_at)
parse_deployment_intent-same i j h =
    let (fs, e, valid, read) = intent_parts (of_intent i) j h in
    let own = expect_schema-fields _ _ _ _ fs _ e in
    let read_own : IsReadFrom _ j = rw (sym own) at read in
    let e1 : str i.nonce ≡ str j.nonce = read_own.nonce in
    let e2 : str i.issued_at ≡ str j.issued_at = read_own.issued in
    let e3 : str i.expires_at ≡ str j.expires_at = read_own.expires in (cc, cc, cc)
