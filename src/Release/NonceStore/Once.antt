-- ===== src/Release/NonceStore/Once.antt =====
-- A nonce is consumed at most once, whatever is called on the store.
use rovaulta.Release.NonceStore.Update.{
  IsKeyed, IsSpent, update-IsKeyed, update-IsSpent, update_spent, update-IsRecorded,
}
use rovaulta.Release.NonceStore.{
  Row, StoredReleaseRequest, issue, update, has_nonce, consume, row_nonce,
}
use rovaulta.Errors.{Result, ok, err}
use rovaulta.Prelude.{
  Str, List, Bool, Option, false, ◌∷◌, true, str_eq, ℕ, any, Bool-cases, if◌then◌else◌, [], ◌≡◌,
  ◌&&◌, suc, arith, inl, ◌∙◌, refl, inr, eq_of_str_eq, ◌++◌, ◌||◌, str_eq_sym, ◌≤◌, sym,
}

-- A call on the store, with whether the database runs its statement.
pub data Call : Type 0 where
  issue_call : Bool → StoredReleaseRequest → Call
  consume_call : Bool → Str → Str → Option Str → Call

abbrev pub perform : Call → List Row → Result (Unit {0}) × List Row
perform (issue_call available request) rows = issue available request rows
perform (consume_call available nonce authorization account) rows =
    consume available nonce authorization account rows

abbrev pub is_ok : Result (Unit {0}) → Bool
is_ok (ok u) = true
is_ok (err e) = false

-- Does the call ask to consume the nonce?
abbrev pub asks_for : Str → Call → Bool
asks_for nonce (issue_call available request) = false
asks_for nonce (consume_call available n authorization account) = str_eq n nonce

-- How many calls of a run consume the nonce and return.
abbrev pub consumptions : Str → List Call → List Row → ℕ
consumptions nonce [] rows = 0
consumptions nonce (c ∷ cs) rows =
    let rest = consumptions nonce cs ((perform c rows).1) in
    if asks_for nonce c && is_ok ((perform c rows).0) then suc rest else rest

abbrev pub run : List Call → List Row → List Row
run [] rows = rows
run (c ∷ cs) rows = run cs ((perform c rows).1)

append_any :
    (n : Str) (rows : List Row) (r : Row)
    → any (has_nonce n) (rows ++ r ∷ []) ≡ (any (has_nonce n) rows || has_nonce n r)
append_any n [] r = ground arith
append_any n (x ∷ rows) r = ground (arith, append_any n rows r)

append-IsKeyed :
    (rows : List Row) (r : Row)
    → IsKeyed rows
    → any (has_nonce (row_nonce r)) rows ≡ false
    → IsKeyed (rows ++ r ∷ [])
append-IsKeyed [] r k h = (refl, tt)
append-IsKeyed (x ∷ rows) r k h = (
  append_any (row_nonce x) rows r ∙ ground (arith, str_eq_sym (row_nonce r) (row_nonce x), k.0),
  append-IsKeyed rows r (k.1) (ground arith),
)

append-IsSpent : (n : Str) (rows : List Row) (r : Row) → IsSpent n rows → IsSpent n (rows ++ r ∷ [])
append-IsSpent n [] r (row, e, c) = cc
append-IsSpent n (x ∷ rows) r (row, e, c) = elim (Bool-cases (has_nonce n x)) [
  | inl h ↦ (row, ground arith, c)
  | inr h ↦
      let (row', e', c') = append-IsSpent n rows r (row, ground arith, c) in
      (row', ground arith, c')
]

perform-IsKeyed : (c : Call) (rows : List Row) → IsKeyed rows → IsKeyed ((perform c rows).1)
unfolding issue consume
perform-IsKeyed (issue_call false request) rows k = k
perform-IsKeyed (issue_call true request) rows k =
    elim (Bool-cases (any (has_nonce request.nonce) rows)) [
      | inl h ↦ rw h k
      | inr h ↦ rw h (append-IsKeyed rows _ k h)
    ]
perform-IsKeyed (consume_call false n a o) rows k = k
perform-IsKeyed (consume_call true n a o) rows k = update-IsKeyed n a o rows k

perform-IsSpent :
    (m : Str) (c : Call) (rows : List Row) → IsSpent m rows → IsSpent m ((perform c rows).1)
unfolding issue consume
perform-IsSpent m (issue_call false request) rows k = k
perform-IsSpent m (issue_call true request) rows k =
    elim (Bool-cases (any (has_nonce request.nonce) rows)) [
      | inl h ↦ rw h k
      | inr h ↦ rw h (append-IsSpent m rows _ k)
    ]
perform-IsSpent m (consume_call false n a o) rows k = k
perform-IsSpent m (consume_call true n a o) rows k = update-IsSpent m n a o rows k

-- A call that asks for a spent nonce throws; one that returns spends the nonce.
spent_throws :
    (n : Str) (c : Call) (rows : List Row)
    → IsKeyed rows
    → IsSpent n rows
    → (asks_for n c && is_ok ((perform c rows).0)) ≡ false
unfolding consume
spent_throws n (issue_call available request) rows k s = refl
spent_throws n (consume_call false m a o) rows k s = ground arith
spent_throws n (consume_call true m a o) rows k s = elim (Bool-cases (str_eq m n)) [
  | inr e ↦ rw e refl
  | inl e ↦
      let q : (update m a o rows).1 ≡ 0 = update_spent m a o rows k (rw (eq_of_str_eq m n e) s) in
      rw (e, q) refl
]

return_spends :
    (n : Str) (c : Call) (rows : List Row)
    → IsKeyed rows
    → (asks_for n c && is_ok ((perform c rows).0)) ≡ true
    → IsSpent n ((perform c rows).1)
unfolding consume
return_spends n (issue_call available request) rows k h = cc
return_spends n (consume_call false m a o) rows k h = absurd (ground arith)
return_spends n (consume_call true m a o) rows k h =
    let q : (update m a o rows).1 ≡ 1 = ground arith in
    let e : m ≡ n = eq_of_str_eq m n (ground arith) in
    let (row, s, c, j) = update-IsRecorded m a o rows k q in rw (sym e) (row, s, c)

consumptions_spent :
    (n : Str) (cs : List Call) (rows : List Row)
    → IsKeyed rows
    → IsSpent n rows
    → consumptions n cs rows ≡ 0
consumptions_spent n [] rows k s = refl
consumptions_spent n (c ∷ cs) rows k s = rw (spent_throws n c rows k s) (
    consumptions_spent n cs ((perform c rows).1) (perform-IsKeyed c rows k)
      (perform-IsSpent n c rows s))

-- From any table whose nonces are distinct, whatever calls follow and whether or not the database
-- runs their statements, at most one of them consumes a given nonce and returns.
pub consumptions-le_one :
    (n : Str) (cs : List Call) (rows : List Row) → IsKeyed rows → consumptions n cs rows ≤ 1
consumptions-le_one n [] rows k = omega arith
consumptions-le_one n (c ∷ cs) rows k =
    elim (Bool-cases (asks_for n c && is_ok ((perform c rows).0))) [
      | inr h ↦ rw h (consumptions-le_one n cs ((perform c rows).1) (perform-IsKeyed c rows k))
      | inl h ↦
          let z =
            consumptions_spent n cs ((perform c rows).1) (perform-IsKeyed c rows k)
              (return_spends n c rows k h) in
          rw (h, z) (omega arith)
    ]
