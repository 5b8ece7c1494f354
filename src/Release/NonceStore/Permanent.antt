-- ===== src/Release/NonceStore/Permanent.antt =====
-- A consumed row and the authorization that it records never change.
use rovaulta.Release.NonceStore.Once.{Call, perform, run, issue_call, consume_call}
use rovaulta.Release.NonceStore.{issue, Row, consume, select, consumed, update, has_nonce}
use rovaulta.Prelude.{
  Str, Option, List, ◌≡◌, some, ◌++◌, ◌∷◌, Bool-cases, [], any, inl, arith, inr, false, true,
}

update_keeps :
    (m n a : Str) (o : Option Str) (rows : List Row) (row : Row)
    → select m rows ≡ some row
    → row.state ≡ consumed
    → select m ((update n a o rows).0) ≡ some row
update_keeps m n a o [] row e c = cc
update_keeps m n a o (r ∷ rs) row e c = elim (Bool-cases (has_nonce m r)) [
  | inl h ↦ let q : r ≡ row = ground arith in let d : r.state ≡ consumed = rw q c in ground arith
  | inr h ↦ ground (arith, update_keeps m n a o rs row (ground arith) c)
]

append_keeps :
    (n : Str) (rows : List Row) (r row : Row)
    → select n rows ≡ some row
    → select n (rows ++ r ∷ []) ≡ some row
append_keeps n [] r row e = cc
append_keeps n (x ∷ rows) r row e = elim (Bool-cases (has_nonce n x)) [
  | inl h ↦ ground arith
  | inr h ↦ ground (arith, append_keeps n rows r row (ground arith))
]

perform_keeps :
    (n : Str) (c : Call) (rows : List Row) (row : Row)
    → select n rows ≡ some row
    → row.state ≡ consumed
    → select n ((perform c rows).1) ≡ some row
unfolding issue consume
perform_keeps n (issue_call false request) rows row e c = e
perform_keeps n (issue_call true request) rows row e c =
    elim (Bool-cases (any (has_nonce request.nonce) rows)) [
      | inl h ↦ rw h e
      | inr h ↦ rw h (append_keeps n rows _ row e)
    ]
perform_keeps n (consume_call false m a o) rows row e c = e
perform_keeps n (consume_call true m a o) rows row e c = update_keeps n m a o rows row e c

-- The row of a nonce that has been consumed, with its authorization, is the same after any sequence
-- of calls, whether or not the database runs their statements.
pub select-run :
    (n : Str) (cs : List Call) (rows : List Row) (row : Row)
    → select n rows ≡ some row
    → row.state ≡ consumed
    → select n (run cs rows) ≡ some row
select-run n [] rows row e c = e
select-run n (call ∷ cs) rows row e c =
    select-run n cs ((perform call rows).1) row (perform_keeps n call rows row e c) c
