-- ===== src/Chain/Registry/Reading.antt =====
-- A reading of the registry whose snapshot says that it matches.
use rovaulta.Chain.Numbers.{show_bigint}
use rovaulta.Domain.Value.{str}
use rovaulta.Domain.Timestamps.{parse_unix_timestamp}
use rovaulta.Errors.{
  ok, bind_parts, or_throw, other_error, >>-eq-ok, require, release, wrong_chain, reject,
  registry_unavailable, ◌>>=◌, ok-injective, or_throw_passed, require_passed,
}
use rovaulta.Chain.Transport.{
  ClearanceBindingsTransport, Encoding, ClearanceTransport, sepolia_chain_id, verdict_clear,
}
use rovaulta.Domain.Digests.{Platform}
use rovaulta.Chain.Registry.{
  same_bindings, ClearanceBindingsTransport, Encoding, RpcClient, read_registry, true,
  ClearanceTransport, ClearanceRegistrySnapshot, StoredClearanceTransport, Block, ok, some,
  sepolia_chain_id, verdict_clear, or_throw, other_error, require, release, wrong_chain, reject,
  has_no_code, registry_unavailable, parse_unix_timestamp, str, show_bigint, ℕ, Bool, snapshot_at,
  none, false, is_exact,
}
use rovaulta.Prelude.{
  Str, ◌≡◌, true, eq_of_str_eq, arith, some, ◌==◌, ℕ, Bool, if◌then◌else◌, none, false, ◌&&◌, ap,
  ◌∙◌, refl,
}

same_bindings-eq : (a b : ClearanceBindingsTransport) → same_bindings a b ≡ true → a ≡ b
unfolding same_bindings
same_bindings-eq a b h =
    let e1 = eq_of_str_eq a.clearance_id_hash b.clearance_id_hash (ground arith) in
    let e2 = eq_of_str_eq a.evaluation_id_hash b.evaluation_id_hash (ground arith) in
    let e3 = eq_of_str_eq a.site_id_hash b.site_id_hash (ground arith) in
    let e4 = eq_of_str_eq a.robot_id_hash b.robot_id_hash (ground arith) in
    let e5 = eq_of_str_eq a.robot_build_id_hash b.robot_build_id_hash (ground arith) in
    let e6 = eq_of_str_eq a.robot_build_digest b.robot_build_digest (ground arith) in
    let e7 = eq_of_str_eq a.safety_envelope_id_hash b.safety_envelope_id_hash (ground arith) in
    let e8 =
      eq_of_str_eq a.safety_envelope_commitment b.safety_envelope_commitment (ground arith) in
    let e9 = eq_of_str_eq a.evaluator_version_hash b.evaluator_version_hash (ground arith) in
    let e10 = eq_of_str_eq a.evaluation_inputs_digest b.evaluation_inputs_digest (ground arith) in
    let e11 : a.issued_at ≡ b.issued_at = ground arith in
    let e12 : a.expires_at ≡ b.expires_at = ground arith in
    λ i. record {
      clearance_id_hash = e1 i;
      evaluation_id_hash = e2 i;
      site_id_hash = e3 i;
      robot_id_hash = e4 i;
      robot_build_id_hash = e5 i;
      robot_build_digest = e6 i;
      safety_envelope_id_hash = e7 i;
      safety_envelope_commitment = e8 i;
      evaluator_version_hash = e9 i;
      evaluation_inputs_digest = e10 i;
      issued_at = e11 i;
      expires_at = e12 i;
    }

module _ (p : Platform) (encoding : Encoding) (contract : Str) where
  -- A reading at one block of the Sepolia chain, in which the contract holds the requested
  -- clearance with the same bindings and says itself that it is valid for them.
  pub record IsExactReading (client : RpcClient) (requested : ClearanceTransport)
      (snapshot : ClearanceRegistrySnapshot) (stored : StoredClearanceTransport) : Type 0 where
    pub block : Block
    pub on_sepolia : client.get_chain_id ≡ some sepolia_chain_id
    pub latest : client.get_block_number ≡ some snapshot.block_number
    pub block_read : client.get_block snapshot.block_number ≡ some block
    pub same_hash : snapshot.block_hash ≡ block.hash
    pub timestamp_read :
        parse_unix_timestamp (str (show_bigint block.timestamp)) ≡ ok snapshot.block_timestamp
    pub clearance_read :
        client.get_clearance contract requested.clearance_digest snapshot.block_number ≡ some stored
    pub valid :
        client.is_clearance_valid_for contract requested.clearance_digest requested.bindings
          snapshot.block_number
        ≡ some true
    pub exists : stored.exists ≡ true
    pub same_digest : stored.clearance_digest ≡ requested.clearance_digest
    pub clear : stored.verdict ≡ verdict_clear encoding
    pub same_stored : stored.bindings ≡ requested.bindings

  -- The reading where the registered digest is the requested one or not.
  stored_lem :
      (client : RpcClient) (requested : ClearanceTransport) (snapshot : ClearanceRegistrySnapshot)
      (stored : StoredClearanceTransport) (number : ℕ) (block : Block) (timestamp : Str)
      (missing : Bool)
      → client.get_chain_id ≡ some sepolia_chain_id
      → client.get_block_number ≡ some number
      → client.get_block number ≡ some block
      → parse_unix_timestamp (str (show_bigint block.timestamp)) ≡ ok timestamp
      → (if missing
          then ok (snapshot_at p encoding contract requested number block timestamp none false)
          else do
            found ←
                or_throw
                  (client.get_clearance contract requested.clearance_digest number)
                  other_error
            exact ←
                or_throw
                  (client.is_clearance_valid_for contract requested.clearance_digest
                    requested.bindings number)
                  other_error
            ok (
                snapshot_at p encoding contract requested number block timestamp
                  (some found)
                  (exact && is_exact p encoding contract found requested)))
        ≡ ok snapshot
      → snapshot.exact_match ≡ true
      → snapshot.stored ≡ some stored
      → IsExactReading client requested snapshot stored
  stored_lem client requested snapshot stored number block timestamp true e1 e2 e3 e4 h exact
        some_stored =
      let same = ok-injective h in
      absurd (
        let q : false ≡ true = ap (λ (s : ClearanceRegistrySnapshot). s.exact_match) same ∙ exact in
        cc)
  stored_lem client requested snapshot stored number block timestamp false e1 e2 e3 e4 h exact
        some_stored =
      let (found, f, h1) =
        bind_parts
          (or_throw (client.get_clearance contract requested.clearance_digest number) other_error) _
          h in
      let (valid, g, h2) =
        bind_parts
          (or_throw
            (client.is_clearance_valid_for contract requested.clearance_digest requested.bindings
              number)
            other_error)
          _ h1 in
      let same = ok-injective h2 in
      let number_eq : number ≡ snapshot.block_number =
        ap (λ (s : ClearanceRegistrySnapshot). s.block_number) same in
      let hash_eq : block.hash ≡ snapshot.block_hash =
        ap (λ (s : ClearanceRegistrySnapshot). s.block_hash) same in
      let stored_eq : some found ≡ some stored =
        ap (λ (s : ClearanceRegistrySnapshot). s.stored) same ∙ some_stored in
      let all_true : (valid && is_exact p encoding contract found requested) ≡ true =
        ap (λ (s : ClearanceRegistrySnapshot). s.exact_match) same ∙ exact in
      let found_eq : found ≡ stored = cc in
      let read : IsExactReading client requested
          (snapshot_at p encoding contract requested number block timestamp (some found)
            (valid && is_exact p encoding contract found requested))
          found =
        record {
          block = block;
          on_sepolia = e1;
          latest = e2;
          block_read = e3;
          same_hash = refl;
          timestamp_read = e4;
          clearance_read = or_throw_passed _ _ f;
          valid = or_throw_passed _ _ g ∙ ap some (let q : valid ≡ true = ground arith in q);
          exists = ground arith;
          same_digest =
              eq_of_str_eq found.clearance_digest requested.clearance_digest (ground arith);
          clear = eq_of_str_eq found.verdict (verdict_clear encoding) (ground arith);
          same_stored = same_bindings-eq found.bindings requested.bindings (ground arith);
        } in
      rw (same, found_eq) at read

  pub read_registry-IsExactReading :
      (client : RpcClient) (requested : ClearanceTransport) (snapshot : ClearanceRegistrySnapshot)
      (stored : StoredClearanceTransport)
      → read_registry p encoding contract client requested ≡ ok snapshot
      → snapshot.exact_match ≡ true
      → snapshot.stored ≡ some stored
      → IsExactReading client requested snapshot stored
  unfolding read_registry
  read_registry-IsExactReading client requested snapshot stored h exact some_stored =
      let (chain, e1, h1) = bind_parts (or_throw client.get_chain_id other_error) _ h in
      let (k1, h2) = >>-eq-ok (require (chain == sepolia_chain_id) (release wrong_chain)) _ h1 in
      let (number, e2, h3) = bind_parts (or_throw client.get_block_number other_error) _ h2 in
      let (block, e3, h4) = bind_parts (or_throw (client.get_block number) other_error) _ h3 in
      let (code, e4, h5) =
        bind_parts (or_throw (client.get_code contract number) other_error) _ h4 in
      let (k2, h6) = >>-eq-ok (reject (has_no_code code) (release registry_unavailable)) _ h5 in
      let (registered, e5, h7) =
        bind_parts
          (or_throw
            (client.clearance_digest_by_id_hash contract requested.bindings.clearance_id_hash
              number)
            other_error)
          _ h6 in
      let (timestamp, e6, h8) =
        bind_parts (parse_unix_timestamp (str (show_bigint block.timestamp))) _ h7 in
      let test = require_passed (chain == sepolia_chain_id) _ k1 in
      let same : chain ≡ sepolia_chain_id = ground arith in
      stored_lem client requested snapshot stored number block timestamp _
        (or_throw_passed _ _ e1 ∙ ap some same) (or_throw_passed _ _ e2) (or_throw_passed _ _ e3) e6
        h8 exact some_stored
