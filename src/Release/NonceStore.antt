-- ===== src/Release/NonceStore.antt =====
-- The durable nonce store (apps/api/src/release/nonce-store.ts): the rows of its one table, in the
-- order in which they were inserted. The first argument of an operation says whether the database
-- runs the statement; where it throws, the rows stay as they are.
pub mod Update
pub mod Once
pub mod Permanent
use rovaulta.Errors.{
  Result, fail_release, persistence_unavailable, require, ◌>>=◌, ok, or_throw, release,
  nonce_not_found, replay_rejected, ◌>>◌, reject,
}
use rovaulta.Prelude.{
  Str, Option, Bool, List, some, true, str_eq, none, false, ◌&&◌, ℕ, ◌∷◌, not, if◌then◌else◌, any,
  suc, [], ◌==◌, ◌++◌,
}

pub record StoredReleaseRequest : Type 0 where
  pub nonce : Str
  pub account_id : Option Str
  pub intent_json : Str
  pub clearance_json : Str
  pub authorized_signer : Str
  pub protocol_intent_digest : Str
  pub typed_data_digest : Str
  pub precheck_block_number : Str
  pub precheck_block_hash : Str
  pub precheck_block_timestamp : Str

pub data RequestState : Type 0 where
  issued consumed : RequestState

-- `LoadedReleaseRequest`, which is also what a row holds.
pub record Row : Type 0 where
  pub request : StoredReleaseRequest
  pub state : RequestState
  pub authorization_json : Option Str

abbrev pub row_nonce : Row → Str
row_nonce row = row.request.nonce

abbrev pub is_issued : RequestState → Bool
is_issued issued = true
is_issued consumed = false

abbrev pub has_nonce : Str → Row → Bool
has_nonce nonce row = str_eq (row_nonce row) nonce

-- The `INSERT`: the primary key does not take a nonce twice.
unfoldable pub issue : Bool → StoredReleaseRequest → List Row → Result (Unit {0}) × List Row
issue false request rows = (fail_release persistence_unavailable, rows)
issue true request rows =
    if any (has_nonce request.nonce) rows then (fail_release persistence_unavailable, rows) else (
      ok tt,
      rows ++ record { request = request; state = issued; authorization_json = none } ∷ [],
    )

-- The `SELECT … WHERE nonce = ?` with `get`: the first row.
abbrev pub select : Str → List Row → Option Row
select nonce [] = none
select nonce (row ∷ rows) = if has_nonce nonce row then some row else select nonce rows

-- `accountId !== undefined && row.account_id !== accountId`
abbrev pub is_other_account : Option Str → Option Str → Bool
is_other_account none owner = false
is_other_account (some account) none = true
is_other_account (some account) (some owner) = not (str_eq owner account)

unfoldable pub load : Bool → Str → Option Str → List Row → Result Row
load false nonce account rows = fail_release persistence_unavailable
load true nonce account rows = do
  row ← or_throw (select nonce rows) (release nonce_not_found)
  reject (is_other_account account row.request.account_id) (release nonce_not_found)
  ok row

-- The condition of the `UPDATE`; a row without an account does not equal any account.
abbrev pub is_consumable : Str → Option Str → Row → Bool
is_consumable nonce account row =
    has_nonce nonce row
    && not (is_other_account account row.request.account_id)
    && is_issued row.state

abbrev pub spend : Str → Row → Row
spend authorization row = record {
  request = row.request;
  state = consumed;
  authorization_json = some authorization;
}

-- The `UPDATE`: the rows that it leaves, and how many it changed.
abbrev pub update : Str → Str → Option Str → List Row → List Row × ℕ
update nonce authorization account [] = ([], 0)
update nonce authorization account (row ∷ rows) =
    let (rest, changes) = update nonce authorization account rows in
    if is_consumable nonce account row
    then (spend authorization row ∷ rest, suc changes)
    else (row ∷ rest, changes)

unfoldable pub consume : Bool → Str → Str → Option Str → List Row → Result (Unit {0}) × List Row
consume false nonce authorization account rows = (fail_release persistence_unavailable, rows)
consume true nonce authorization account rows =
    let (rest, changes) = update nonce authorization account rows in
    (require (changes == 1) (release replay_rejected), rest)
