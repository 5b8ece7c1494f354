-- ===== src/Tests/Nonces.antt =====
-- A nonce that is issued, consumed and consumed again.
use rovaulta.Release.NonceStore.Permanent.{select-run}
use rovaulta.Release.NonceStore.Once.{
  consumptions, Call, issue_call, consumptions-le_one, consume_call, run,
}
use rovaulta.Release.NonceStore.{StoredReleaseRequest, issue, consume, Row, select, consumed}
use rovaulta.Prelude.{List, codes, some, [], true, ◌≡◌, ◌≤◌, ◌∷◌, refl, none}

abbrev request : StoredReleaseRequest
request = record {
  nonce = codes "n1";
  account_id = some (codes "owner");
  intent_json = [];
  clearance_json = [];
  authorized_signer = [];
  protocol_intent_digest = [];
  typed_data_digest = [];
  precheck_block_number = [];
  precheck_block_hash = [];
  precheck_block_timestamp = [];
}

abbrev calls : List Call
calls =
    issue_call true request
    ∷ consume_call true (codes "n1") [] (some (codes "other"))
    ∷ consume_call true (codes "n1") [] (some (codes "owner"))
    ∷ consume_call true (codes "n1") [] none
    ∷ []

-- The second call is of another account, and the last one is a replay.
consumed_once : consumptions (codes "n1") calls [] ≡ 1
unfolding issue consume
consumed_once = refl

consumptions-le_one_example : consumptions (codes "n1") calls [] ≤ 1
consumptions-le_one_example = consumptions-le_one (codes "n1") calls [] tt

abbrev spent_row : Row
spent_row = record { request = request; state = consumed; authorization_json = some (codes "{}") }

select-run_example : select (codes "n1") (run calls (spent_row ∷ [])) ≡ some spent_row
select-run_example = select-run (codes "n1") calls (spent_row ∷ []) spent_row refl refl
