-- ===== src/Base/Texts.antt =====
-- Native texts, and Python dictionaries and sets with text elements, as lists.
use Prim.Native.Nat.{ℕ, ◌+◌}
use Prim.Native.Char.{code}
use Prim.Native.String.{String}
use mathlib.Core.Path.{◌≡◌, sym, ◌∙◌}
use mathlib.Core.Logic.{◌↔◌, ◌⊎◌, ◌≢◌, inl, inr}
use mathlib.Core.Bool.{Bool, true, false, ◌||◌, ◌&&◌, false≢true}
use mathlib.Core.Option.{Option, none, some}
use mathlib.Core.List.{List, [], ◌∷◌}
use reddit_kafka.Base.Tests.{if◌then◌else◌, Bool-cases, leb}
use text.Mathlib.Text.{◌==◌}
use text.Mathlib.TextEquality.{eq_iff}
use text.Mathlib.TextPositions.{eq_refl}

-- `a == b` on texts
abbrev pub str_eq : String → String → Bool
str_eq a b = a == b

pub str_eq_iff : (a b : String) → (str_eq a b ≡ true) ↔ (a ≡ b)
str_eq_iff a b = eq_iff a b

-- the truth value of a text
abbrev pub truthy : String → Bool
truthy s = if s == "" then false else true

abbrev pub Dict {ℓ} : Type ℓ → Type ℓ
Dict V = List (String × V)

module _ {ℓ} {V : Type ℓ} where
  -- `d.get(k)`
  abbrev pub lookup : String → Dict V → Option V
  lookup k [] = none
  lookup k ((j, v) ∷ d) = if j == k then some v else lookup k d

-- `x in s`
abbrev pub has : String → List String → Bool
has x [] = false
has x (y ∷ s) = (y == x) || has x s

pub str_eq_refl : (a : String) → str_eq a a ≡ true
str_eq_refl = eq_refl

-- Two texts are one text or differ.
pub str_cases : (a b : String) → (a ≡ b) ⊎ (a ≢ b)
str_cases a b = elim (Bool-cases (str_eq a b)) [
  | inl e ↦ inl ((eq_iff a b).0 e)
  | inr ne ↦ inr (λ e. false≢true (sym ne ∙ (eq_iff a b).1 e))
]

pub str_differ : {a b : String} → str_eq a b ≡ false → a ≢ b
str_differ {a} {b} ne e = false≢true (sym ne ∙ (eq_iff a b).1 e)

-- the code points of a text
abbrev pub codes : String → List ℕ
codes String.[] = []
codes (String.◌∷◌ c s) = code c ∷ codes s

-- `len(s)`
abbrev pub len : String → ℕ
len String.[] = 0
len (String.◌∷◌ c s) = 1 + len s

-- whether a text has one to 255 characters
abbrev pub fits : String → Bool
fits s = leb 1 (len s) && leb (len s) 255
