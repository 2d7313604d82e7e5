-- ===== src/Prelude/Texts.antt =====
-- Texts are native strings. A program compares them and, for a checkpoint id, walks their characters.
use Prim.Native.Nat.{ℕ}
use Prim.Native.Char.{code}
use Prim.Native.String.{String}
use mathlib.Core.Path.{◌≡◌, refl}
use mathlib.Core.Bool.{Bool, true, false, ◌||◌, ◌&&◌, not}
use mathlib.Core.Logic.{inl, inr}
use mathlib.Core.List.{List, [], ◌∷◌}
use native.Mathlib.Omega.{arith}
use text.Mathlib.Text.{◌==◌ as str_eq}
use text.Mathlib.TextEquality.{eq_iff}
use ownframework_loop.Prelude.Tests.{Bool-cases}

pub not_same : (a b : String) → str_eq a b ≡ false → ¬ (a ≡ b)
not_same a b e p = ground (arith, eq_iff a b)

unfoldable pub Text-discrete : Discrete String
unfolding Bool-cases
Text-discrete a b = elim (Bool-cases (str_eq a b)) [
  | inl e ↦ yes ((eq_iff a b).0 e)
  | inr e ↦ no (not_same a b e)
]

-- `a == b` on texts.
abbrev pub same : String → String → Bool
same a b = elim (Text-discrete a b) [ yes p ↦ true | no p ↦ false ]

-- `a in xs` on a list of texts.
abbrev pub mem : String → List String → Bool
mem a [] = false
mem a (x ∷ xs) = same a x || mem a xs

pub same_refl : (a : String) → same a a ≡ true
same_refl a = ground (arith, Text-discrete a a)

-- The code points of a text.
abbrev pub codes : String → List ℕ
codes String.[] = []
codes (String.◌∷◌ c s) = code c ∷ codes s

pub same→eq : (a b : String) → same a b ≡ true → a ≡ b
same→eq a b h = ground (arith, Text-discrete a b)

pub same_sym : (a b : String) → same a b ≡ same b a
same_sym a b = ground (arith, Text-discrete a b, Text-discrete b a)

-- `len(set(xs)) == len(xs)`
abbrev pub distinct : List String → Bool
distinct [] = true
distinct (x ∷ xs) = not (mem x xs) && distinct xs

-- The entries of `xs`, last first, in front of `ys`.
abbrev pub rev_append {ℓ} : {A : Type ℓ} → List A → List A → List A
rev_append [] ys = ys
rev_append (x ∷ xs) ys = rev_append xs (x ∷ ys)

pub mem-rev_append :
    (a : String) (xs ys : List String) → mem a (rev_append xs ys) ≡ (mem a xs || mem a ys)
mem-rev_append a [] ys = refl
mem-rev_append a (x ∷ xs) ys = ground (arith, mem-rev_append a xs (x ∷ ys))
