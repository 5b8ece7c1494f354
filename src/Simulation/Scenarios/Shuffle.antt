-- ===== src/Simulation/Scenarios/Shuffle.antt =====
-- The exchange loop of `generateScenarioSuite` permutes the scenarios.
use rovaulta.Errors.{ok}
use rovaulta.Simulation.Scenarios.{exchange, shuffle, ok, next_uint32}
use rovaulta.Prelude.{
  List, ℕ, ◌<◌, get_elem?, length, set, length-set, get_elem?-lt, ◌≡◌, [], ◌∷◌, some, zero, suc,
  refl, sym, ◌∙◌, arith, ◌+◌, ◌-◌,
}
use mathlib.Core.Option.{some-injective}
use mathlib.Core.List.{Perm}
use Prim.Native.Nat.{◌%◌}
use mathlib.Core.List.Perm

minus_one : (n : ℕ) → suc n - 1 ≡ n
minus_one n = omega arith

module _ {ℓ} {A : Type ℓ} where
  exchange_head :
      (xs : List A) (x r : A) (j : ℕ) → get_elem? xs j ≡ some r → Perm (r ∷ set xs j x) (x ∷ xs)
  exchange_head [] x r j h = cc
  exchange_head (y ∷ ys) x r zero h = rw (some-injective _ _ h) (Perm.swap _ _ _)
  exchange_head (y ∷ ys) x r (suc j) h =
      Perm.trans (Perm.swap _ _ _)
        (Perm.trans (Perm.cons y (exchange_head ys x r j h)) (Perm.swap _ _ _))

  exchange_perm :
      (xs : List A) (i j : ℕ) (c r : A)
      → get_elem? xs i ≡ some c
      → get_elem? xs j ≡ some r
      → Perm (set (set xs i r) j c) xs
  exchange_perm [] i j c r h k = cc
  exchange_perm (x ∷ xs) zero zero c r h k = rw (some-injective _ _ h) (Perm.refl _)
  exchange_perm (x ∷ xs) zero (suc j) c r h k =
      rw (sym (some-injective _ _ h)) (exchange_head xs x r j k)
  exchange_perm (x ∷ xs) (suc i) zero c r h k =
      rw (sym (some-injective _ _ k)) (exchange_head xs x c i h)
  exchange_perm (x ∷ xs) (suc i) (suc j) c r h k = Perm.cons x (exchange_perm xs i j c r h k)

  exchange-ok :
      (xs : List A) (i j : ℕ)
      → i < length xs
      → j < length xs
      → (ys : List A) × (exchange xs i j ≡ ok ys) × Perm ys xs × (length ys ≡ length xs)
  unfolding exchange
  exchange-ok xs i j h k =
      let (c, p) = get_elem?-lt xs i h in
      let (r, q) = get_elem?-lt xs j k in
      (
        set (set xs i r) j c,
        rw (p, q) refl,
        exchange_perm xs i j c r p q,
        length-set (set xs i r) j c ∙ length-set xs i r,
      )

  -- Started at any position of the list and with any generator state, the exchange loop throws
  -- nothing, and its result is a permutation of the list.
  pub shuffle-perm :
      (index : ℕ) (xs : List A) (state : ℕ)
      → index < length xs
      → (ys : List A) × (shuffle index xs state ≡ ok ys) × Perm ys xs
  unfolding shuffle
  shuffle-perm zero xs state h = (xs, refl, Perm.refl xs)
  shuffle-perm (suc index) xs state h =
      let bound : next_uint32 state % (suc index + 1) < suc index + 1 = omega arith in
      let (ys, e, p, l) =
        exchange-ok xs (suc index) (next_uint32 state % (suc index + 1)) h (omega (arith, bound)) in
      let (zs, f, q) = shuffle-perm index ys (next_uint32 state) (omega arith) in
      (zs, rw e f, Perm.trans q p)

  -- The loop as the generator starts it.
  pub shuffle_all :
      (xs : List A) (state : ℕ)
      → (ys : List A) × (shuffle (length xs - 1) xs state ≡ ok ys) × Perm ys xs
  unfolding shuffle
  shuffle_all [] state = ([], refl, Perm.refl [])
  shuffle_all (x ∷ xs) state =
      let (ys, e, p) = shuffle-perm (length xs) (x ∷ xs) state (omega arith) in
      (ys, rw (minus_one (length xs)) e, p)
