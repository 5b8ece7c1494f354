-- ===== src/Release/NonceStore/Update.antt =====
-- What the `UPDATE` of `consume` does to a table with distinct nonces.
use rovaulta.Release.NonceStore.{
  Row, update, has_nonce, row_nonce, is_consumable, select, consumed, spend,
}
use rovaulta.Prelude.{
  Str, List, Option, false, ◌∷◌, true, any, Bool-cases, [], ◌≡◌, arith, inl, ◌∙◌, refl, inr,
  eq_of_str_eq, some, ap, ◌≤◌,
}

-- The table's primary key.
abbrev pub IsKeyed : List Row → Type 0
IsKeyed [] = Unit
IsKeyed (row ∷ rows) = (any (has_nonce (row_nonce row)) rows ≡ false) × IsKeyed rows

pub update_absent :
    (n a : Str) (o : Option Str) (rows : List Row)
    → any (has_nonce n) rows ≡ false
    → update n a o rows ≡ (rows, 0)
update_absent n a o [] h = refl
update_absent n a o (r ∷ rs) h = ground (arith, update_absent n a o rs)

pub any-update :
    (m n a : Str) (o : Option Str) (rows : List Row)
    → any (has_nonce m) ((update n a o rows).0) ≡ any (has_nonce m) rows
any-update m n a o [] = refl
any-update m n a o (r ∷ rs) = ground (arith, any-update m n a o rs)

pub update-IsKeyed :
    (n a : Str) (o : Option Str) (rows : List Row) → IsKeyed rows → IsKeyed ((update n a o rows).0)
update-IsKeyed n a o [] h = tt
update-IsKeyed n a o (r ∷ rs) h = elim (Bool-cases (is_consumable n o r)) [
  | inl e ↦ rw e (any-update (row_nonce r) n a o rs ∙ h.0, update-IsKeyed n a o rs (h.1))
  | inr e ↦ rw e (any-update (row_nonce r) n a o rs ∙ h.0, update-IsKeyed n a o rs (h.1))
]

-- The nonce has a row, which is consumed.
abbrev pub IsSpent : Str → List Row → Type 0
IsSpent n rows = (row : Row) × (select n rows ≡ some row) × (row.state ≡ consumed)

pub update-IsSpent :
    (m n a : Str) (o : Option Str) (rows : List Row)
    → IsSpent m rows
    → IsSpent m ((update n a o rows).0)
update-IsSpent m n a o [] (row, e, c) = cc
update-IsSpent m n a o (r ∷ rs) (row, e, c) = elim (Bool-cases (has_nonce m r)) [
  | inl h ↦
      let q : r ≡ row = ground arith in let d : r.state ≡ consumed = rw q c in (r, ground arith, d)
  | inr h ↦
      let (row', e', c') = update-IsSpent m n a o rs (row, ground arith, c) in
      (row', ground arith, c')
]

pub tail_absent :
    (n : Str) (r : Row) (rs : List Row)
    → has_nonce n r ≡ true
    → any (has_nonce (row_nonce r)) rs ≡ false
    → any (has_nonce n) rs ≡ false
tail_absent n r rs h k = rw (eq_of_str_eq (row_nonce r) n h) at k

pub update_spent :
    (n a : Str) (o : Option Str) (rows : List Row)
    → IsKeyed rows
    → IsSpent n rows
    → (update n a o rows).1 ≡ 0
update_spent n a o [] k (row, e, c) = refl
update_spent n a o (r ∷ rs) k (row, e, c) = elim (Bool-cases (has_nonce n r)) [
  | inl h ↦
      let q : r ≡ row = ground arith in
      let d : r.state ≡ consumed = rw q c in
      ground (arith, update_absent n a o rs (tail_absent n r rs h (k.0)))
  | inr h ↦ ground (arith, update_spent n a o rs (k.1) (row, ground arith, c))
]

-- The nonce has a consumed row, which records the authorization.
abbrev pub IsRecorded : Str → Str → List Row → Type 0
IsRecorded n a rows =
    (row : Row) × (select n rows ≡ some row)
    × (row.state ≡ consumed)
    × (row.authorization_json ≡ some a)

pub update-IsRecorded :
    (n a : Str) (o : Option Str) (rows : List Row)
    → IsKeyed rows
    → (update n a o rows).1 ≡ 1
    → IsRecorded n a ((update n a o rows).0)
update-IsRecorded n a o [] k h = absurd (omega (arith, h))
update-IsRecorded n a o (r ∷ rs) k h = elim (Bool-cases (has_nonce n r)) [
  | inl e ↦ elim (Bool-cases (is_consumable n o r)) [
    | inl c ↦ (spend a r, ground arith, refl, refl)
    | inr c ↦ absurd (
        let q : (update n a o rs).1 ≡ 0 =
          ap (λ x. x.1) (update_absent n a o rs (tail_absent n r rs e (k.0))) in
        ground arith)
  ]
  | inr e ↦
      let (row, s, c, j) = update-IsRecorded n a o rs (k.1) (ground arith) in
      (row, ground arith, c, j)
]

-- Where the nonces are distinct the `UPDATE` changes one row or none.
pub update-le_one :
    (n a : Str) (o : Option Str) (rows : List Row) → IsKeyed rows → (update n a o rows).1 ≤ 1
update-le_one n a o [] k = omega arith
update-le_one n a o (r ∷ rs) k = elim (Bool-cases (has_nonce n r)) [
  | inl e ↦
      let q : (update n a o rs).1 ≡ 0 =
        ap (λ x. x.1) (update_absent n a o rs (tail_absent n r rs e (k.0))) in
      ground arith
  | inr e ↦ ground (arith, update-le_one n a o rs (k.1))
]

pub update_none :
    (n a : Str) (o : Option Str) (rows : List Row)
    → (update n a o rows).1 ≡ 0
    → (update n a o rows).0 ≡ rows
update_none n a o [] h = refl
update_none n a o (r ∷ rs) h = ground (arith, update_none n a o rs)
