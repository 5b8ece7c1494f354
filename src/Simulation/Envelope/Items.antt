-- ===== src/Simulation/Envelope/Items.antt =====
-- The items of an array that are parsed one by one and then sorted
-- (packages/simulation-core/src/model.ts).
use rovaulta.Errors.{Result, ok, bind_parts, ok-injective}
use rovaulta.Simulation.Parse.{traverse, expect_array}
use rovaulta.Domain.Value.{Value}
use mathlib.Core.List.{Perm}
use mathlib.Core.Path.{subst}
use rovaulta.Prelude.{[], ◌∷◌, List, ℕ, ◌≡◌}

-- Each value is parsed to the item at its place.
abbrev pub AreParsed : {A : Type 0} → (Value → Result A) → List Value → List A → Type 0
AreParsed parse [] [] = Unit
AreParsed parse [] (x ∷ xs) = ⊥
AreParsed parse (v ∷ vs) [] = ⊥
AreParsed parse (v ∷ vs) (x ∷ xs) = (parse v ≡ ok x) × AreParsed parse vs xs

-- The items are those of an array of at most `limit` values, in some order.
abbrev pub AreItemsOf : {A : Type 0} → (Value → Result A) → ℕ → Value → List A → Type 0
AreItemsOf {A} parse limit v xs =
    (vs : List Value) × (ys : List A) × (expect_array v limit ≡ ok vs)
    × AreParsed parse vs ys
    × Perm xs ys

pub traverse-AreParsed :
    {A : Type 0} (parse : Value → Result A) (vs : List Value) (ys : List A)
    → traverse parse vs ≡ ok ys
    → AreParsed parse vs ys
unfolding traverse
traverse-AreParsed parse [] [] h = tt
traverse-AreParsed parse [] (y ∷ ys) h = cc
traverse-AreParsed parse (v ∷ vs) ys h =
    let (x, e, h1) = bind_parts (parse v) _ h in
    let (xs, f, h2) = bind_parts (traverse parse vs) _ h1 in
    let all_parsed : AreParsed parse (v ∷ vs) (x ∷ xs) = (e, traverse-AreParsed parse vs xs f) in
    subst (λ zs. AreParsed parse (v ∷ vs) zs) (ok-injective h2) all_parsed
