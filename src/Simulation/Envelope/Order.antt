-- ===== src/Simulation/Envelope/Order.antt =====
-- What the parser of an envelope (packages/simulation-core/src/model.ts) tests, without its tests:
-- the order of ids and of rules, distinct ids, rectangles inside others, and known zones.
use rovaulta.Prelude.Sort.{IsSorted}
use rovaulta.Simulation.Envelope.{zone_le, rule_le, names_known_zone}
use rovaulta.Prelude.Int.{◌≤ℤ◌}
use rovaulta.Simulation.Parse.{code_units_le, has_duplicates, rectangle_contains_rectangle}
use rovaulta.Simulation.Model.{
  RectangleMm, SafetyRule, WarehouseZone, restricted_zone, rule_rank, rule_id, site_speed_limit,
  zone_speed_limit, payload_zone_restriction,
}
use rovaulta.Prelude.{
  Str, ◌∷◌, ◌≡◌, List, str_lt, Bool, ◌<◌, ◌⊎◌, All, ℕ, Any, true, any, [], ◌≢◌, Bool-cases, str_eq,
  false, all, arith, inl, str_eq_of_eq, ◌==◌, inr, eq_of_str_eq, sym, ltb, ◌∙◌, refl, ltb→lt,
}

-- The strict order of strings: by the first code unit that differs, a prefix first.
abbrev pub IsBefore : Str → Str → Type 0
IsBefore s [] = ⊥
IsBefore [] (b ∷ t) = Unit
IsBefore (a ∷ s) (b ∷ t) = (a < b) ⊎ ((a ≡ b) × IsBefore s t)

abbrev pub IsAtMost : Str → Str → Type 0
IsAtMost s t = (s ≡ t) ⊎ IsBefore s t

-- Each item is in order with the next one.
abbrev pub AreInOrder {ℓ} : {A : Type ℓ} → (A → A → Type 0) → List A → Type 0
AreInOrder R [] = Unit
AreInOrder R (x ∷ []) = Unit
AreInOrder R (x ∷ y ∷ ys) = R x y × AreInOrder R (y ∷ ys)

-- No string equals a later one.
abbrev pub AreDistinct : List Str → Type 0
AreDistinct [] = Unit
AreDistinct (x ∷ xs) = All (λ y. x ≢ y) xs × AreDistinct xs

-- The four sides of `inner` are within those of `outer`.
abbrev pub IsInside : RectangleMm → RectangleMm → Type 0
IsInside outer inner =
    (outer.min_x_mm ≤ℤ inner.min_x_mm)
    × (inner.max_x_mm ≤ℤ outer.max_x_mm)
    × (outer.min_y_mm ≤ℤ inner.min_y_mm)
    × (inner.max_y_mm ≤ℤ outer.max_y_mm)

-- Restricted zones come first, then speed limits of the site, those of a zone, and restrictions of
-- the payload.
abbrev pub family : SafetyRule → ℕ
family (restricted_zone rule zone) = 0
family (site_speed_limit rule limit) = 1
family (zone_speed_limit rule zone limit) = 2
family (payload_zone_restriction rule zone limit) = 3

abbrev pub id_of : SafetyRule → Str
id_of (restricted_zone rule zone) = rule
id_of (site_speed_limit rule limit) = rule
id_of (zone_speed_limit rule zone limit) = rule
id_of (payload_zone_restriction rule zone limit) = rule

-- A rule of an earlier family, or of the same one with an id that is not later.
abbrev pub IsRuleAtMost : SafetyRule → SafetyRule → Type 0
IsRuleAtMost a b = (family a < family b) ⊎ ((family a ≡ family b) × IsAtMost (id_of a) (id_of b))

abbrev pub HasZone : List WarehouseZone → Str → Type 0
HasZone zones id = Any (λ zone. zone.zone_id ≡ id) zones

-- The zone that a rule names, where it names one, is among the zones.
abbrev pub NamesZoneOf : List WarehouseZone → SafetyRule → Type 0
NamesZoneOf zones (restricted_zone rule zone) = HasZone zones zone
NamesZoneOf zones (site_speed_limit rule limit) = Unit
NamesZoneOf zones (zone_speed_limit rule zone limit) = HasZone zones zone
NamesZoneOf zones (payload_zone_restriction rule zone limit) = HasZone zones zone

str_lt-IsBefore : (s t : Str) → str_lt s t ≡ true → IsBefore s t
str_lt-IsBefore [] [] h = cc
str_lt-IsBefore [] (b ∷ t) h = tt
str_lt-IsBefore (a ∷ s) [] h = cc
str_lt-IsBefore (a ∷ s) (b ∷ t) h = elim (Bool-cases (a == b)) [
  | inl e ↦
      let q : str_lt s t ≡ true = rw e at h in
      inr ((let q : a ≡ b = ground arith in q), str_lt-IsBefore s t q)
  | inr e ↦ let q : ltb a b ≡ true = rw e at h in inl (ltb→lt a b q)
]

code_units_le-IsAtMost : (s t : Str) → code_units_le s t ≡ true → IsAtMost s t
code_units_le-IsAtMost s t h = elim (Bool-cases (str_eq s t)) [
  | inl e ↦ inl (eq_of_str_eq s t e)
  | inr e ↦ inr (str_lt-IsBefore s t (rw e at h))
]

pub zone_le-IsAtMost : (a b : WarehouseZone) → zone_le a b ≡ true → IsAtMost a.zone_id b.zone_id
zone_le-IsAtMost a b h = code_units_le-IsAtMost a.zone_id b.zone_id h

rule_rank-family : (a : SafetyRule) → rule_rank a ≡ family a
rule_rank-family (restricted_zone rule zone) = refl
rule_rank-family (site_speed_limit rule limit) = refl
rule_rank-family (zone_speed_limit rule zone limit) = refl
rule_rank-family (payload_zone_restriction rule zone limit) = refl

pub rule_id-id_of : (a : SafetyRule) → rule_id a ≡ id_of a
rule_id-id_of (restricted_zone rule zone) = refl
rule_id-id_of (site_speed_limit rule limit) = refl
rule_id-id_of (zone_speed_limit rule zone limit) = refl
rule_id-id_of (payload_zone_restriction rule zone limit) = refl

pub rule_le-IsRuleAtMost : (a b : SafetyRule) → rule_le a b ≡ true → IsRuleAtMost a b
rule_le-IsRuleAtMost a b h =
    let f = rule_rank-family a in
    let g = rule_rank-family b in
    elim (Bool-cases (rule_rank a == rule_rank b)) [
      | inl e ↦
          let q : code_units_le (rule_id a) (rule_id b) ≡ true = rw e at h in
          let same : rule_rank a ≡ rule_rank b = ground arith in
          let order = code_units_le-IsAtMost (rule_id a) (rule_id b) q in
          inr (sym f ∙ same ∙ g, rw (rule_id-id_of a, rule_id-id_of b) at order)
      | inr e ↦
          let q : ltb (rule_rank a) (rule_rank b) ≡ true = rw e at h in
          let less = ltb→lt (rule_rank a) (rule_rank b) q in inl (rw (f, g) at less)
    ]

pub IsSorted-AreInOrder {ℓ} :
    {A : Type ℓ} (le : A → A → Bool) (R : A → A → Type 0)
    → ((x y : A) → le x y ≡ true → R x y)
    → (xs : List A) → IsSorted le xs
    → AreInOrder R xs
IsSorted-AreInOrder le R f [] h = tt
IsSorted-AreInOrder le R f (x ∷ []) h = tt
IsSorted-AreInOrder le R f (x ∷ y ∷ ys) h = (f x y h.0, IsSorted-AreInOrder le R f (y ∷ ys) h.1)

not_any_lem : (s : Str) (xs : List Str) → any (str_eq s) xs ≡ false → All (λ y. s ≢ y) xs
not_any_lem s [] h = tt
not_any_lem s (x ∷ xs) h =
    let differ : str_eq s x ≡ false = ground arith in
    (
      (λ e. let q = str_eq_of_eq s x e in absurd (let r = sym differ ∙ q in cc)),
      not_any_lem s xs (ground arith),
    )

pub has_duplicates-AreDistinct : (xs : List Str) → has_duplicates xs ≡ false → AreDistinct xs
has_duplicates-AreDistinct [] h = tt
has_duplicates-AreDistinct (x ∷ xs) h =
    (not_any_lem x xs (ground arith), has_duplicates-AreDistinct xs (ground arith))

pub all-All {ℓ} :
    {A : Type ℓ} (test : A → Bool) (P : A → Type 0)
    → ((x : A) → test x ≡ true → P x)
    → (xs : List A) → all test xs ≡ true
    → All P xs
all-All test P f [] h = tt
all-All test P f (x ∷ xs) h = (f x (ground arith), all-All test P f xs (ground arith))

pub rectangle_contains_rectangle-IsInside :
    (outer inner : RectangleMm)
    → rectangle_contains_rectangle outer inner ≡ true
    → IsInside outer inner
rectangle_contains_rectangle-IsInside outer inner h =
    (ground arith, ground arith, ground arith, ground arith)

any-HasZone :
    (id : Str) (zones : List WarehouseZone)
    → any (λ zone. str_eq zone.zone_id id) zones ≡ true
    → HasZone zones id
any-HasZone id [] h = cc
any-HasZone id (z ∷ zs) h = elim (Bool-cases (str_eq z.zone_id id)) [
  | inl e ↦ Any.head (eq_of_str_eq z.zone_id id e)
  | inr e ↦ Any.tail (any-HasZone id zs (ground arith))
]

pub names_known_zone-NamesZoneOf :
    (zones : List WarehouseZone) (rule : SafetyRule)
    → names_known_zone zones rule ≡ true
    → NamesZoneOf zones rule
names_known_zone-NamesZoneOf zones (restricted_zone rule zone) h = any-HasZone zone zones h
names_known_zone-NamesZoneOf zones (site_speed_limit rule limit) h = tt
names_known_zone-NamesZoneOf zones (zone_speed_limit rule zone limit) h = any-HasZone zone zones h
names_known_zone-NamesZoneOf zones (payload_zone_restriction rule zone limit) h =
    any-HasZone zone zones h
