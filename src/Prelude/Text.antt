-- ===== src/Prelude/Text.antt =====
-- JavaScript strings: a list of UTF-16 code units, with `===`, `<` and the operations on strings
-- that several components call.
use Prim.Native.Nat.{ℕ}
use Prim.Native.Char.{code}
use Prim.Native.String.{String}
use mathlib.Core.Path.{◌≡◌, refl}
use mathlib.Core.Logic.{◌↔◌}
use mathlib.Core.Bool.{Bool, true, false, ◌&&◌}
use mathlib.Core.List.{List, [], ◌∷◌}
use native.Mathlib.Omega.{arith}
use rovaulta.Prelude.Tests.{◌==◌, ltb, if◌then◌else◌}

abbrev pub Str : Type 0
Str = List ℕ

-- The code units of an ASCII literal.
abbrev pub codes : String → Str
codes String.[] = []
codes (String.◌∷◌ c s) = code c ∷ codes s

-- `left === right` on strings
abbrev pub str_eq : Str → Str → Bool
str_eq [] [] = true
str_eq [] (b ∷ t) = false
str_eq (a ∷ s) [] = false
str_eq (a ∷ s) (b ∷ t) = a == b && str_eq s t

-- `left < right` on strings: lexicographic on code units
abbrev pub str_lt : Str → Str → Bool
str_lt [] [] = false
str_lt [] (b ∷ t) = true
str_lt (a ∷ s) [] = false
str_lt (a ∷ s) (b ∷ t) = if a == b then str_lt s t else ltb a b

-- `text.startsWith(prefix)`
abbrev pub starts_with : Str → Str → Bool
starts_with [] s = true
starts_with (a ∷ p) [] = false
starts_with (a ∷ p) (b ∷ s) = a == b && starts_with p s

pub str_eq_refl : (s : Str) → str_eq s s ≡ true
str_eq_refl [] = refl
str_eq_refl (a ∷ s) = ground (arith, str_eq_refl s)

pub eq_of_str_eq : (s t : Str) → str_eq s t ≡ true → s ≡ t
eq_of_str_eq [] [] h = refl
eq_of_str_eq [] (b ∷ t) h = cc
eq_of_str_eq (a ∷ s) [] h = cc
eq_of_str_eq (a ∷ s) (b ∷ t) h = ground (arith, eq_of_str_eq s t)

pub str_eq_of_eq : (s t : Str) → s ≡ t → str_eq s t ≡ true
str_eq_of_eq s t e = rw e (str_eq_refl t)

pub str_eq_iff : (s t : Str) → (str_eq s t ≡ true) ↔ (s ≡ t)
str_eq_iff s t = (eq_of_str_eq s t, str_eq_of_eq s t)

pub str_lt_total : (s t : Str) → str_eq s t ≡ false → str_lt s t ≡ false → str_lt t s ≡ true
str_lt_total [] [] h k = cc
str_lt_total [] (b ∷ t) h k = cc
str_lt_total (a ∷ s) [] h k = refl
str_lt_total (a ∷ s) (b ∷ t) h k = ground (arith, str_lt_total s t)

pub str_lt_irrefl : (s : Str) → str_lt s s ≡ false
str_lt_irrefl [] = refl
str_lt_irrefl (a ∷ s) = ground (arith, str_lt_irrefl s)

pub str_lt_trans : (s t u : Str) → str_lt s t ≡ true → str_lt t u ≡ true → str_lt s u ≡ true
str_lt_trans [] [] u h k = cc
str_lt_trans [] (b ∷ t) [] h k = cc
str_lt_trans [] (b ∷ t) (c ∷ u) h k = refl
str_lt_trans (a ∷ s) [] u h k = cc
str_lt_trans (a ∷ s) (b ∷ t) [] h k = cc
str_lt_trans (a ∷ s) (b ∷ t) (c ∷ u) h k = ground (arith, str_lt_trans s t u)

pub str_eq_sym : (s t : Str) → str_eq s t ≡ str_eq t s
str_eq_sym [] [] = refl
str_eq_sym [] (b ∷ t) = refl
str_eq_sym (a ∷ s) [] = refl
str_eq_sym (a ∷ s) (b ∷ t) = ground (arith, str_eq_sym s t)
