-- ===== src/Base/Strings.antt =====
-- Go strings as lists of bytes, with their equality test.
use Prim.Native.Nat.{ℕ}
use Prim.Native.Char.{code}
use Prim.Native.String.{String}
use mathlib.Core.Path.{◌≡◌, refl, ap₂}
use mathlib.Core.Logic.{◌≢◌}
use mathlib.Core.Bool.{Bool, true, false}
use mathlib.Core.List.{List, [], ◌∷◌}
use native.Mathlib.Omega.{arith}
use native.Mathlib.Decide.{ℕ_discrete}

abbrev pub Text : Type 0
Text = List ℕ

-- The code points of a literal; these are its bytes, as every literal here is ASCII.
abbrev pub codes : String → Text
codes String.[] = []
codes (String.◌∷◌ c s) = code c ∷ codes s

heads : {c d : ℕ} {s t : Text} → c ≢ d → c ∷ s ≢ d ∷ t
heads h e = h (cc)

tails : {c d : ℕ} {s t : Text} → s ≢ t → c ∷ s ≢ d ∷ t
tails h e = h (cc)

nil-ne-cons : {d : ℕ} {t : Text} → [] ≢ d ∷ t
nil-ne-cons e = cc

cons-ne-nil : {c : ℕ} {s : Text} → c ∷ s ≢ []
cons-ne-nil e = cc

unfoldable pub text_discrete : Discrete Text
unfolding ℕ_discrete heads tails nil-ne-cons cons-ne-nil
text_discrete [] [] = yes refl
text_discrete [] (d ∷ t) = no nil-ne-cons
text_discrete (c ∷ s) [] = no cons-ne-nil
text_discrete (c ∷ s) (d ∷ t) = elim (ℕ_discrete c d) [
  | no h ↦ no (heads h)
  | yes p ↦ elim (text_discrete s t) [ yes q ↦ yes (ap₂ ◌∷◌ p q) | no h ↦ no (tails h) ]
]

abbrev pub same : Text → Text → Bool
same a b = elim (text_discrete a b) [ yes _ ↦ true | no _ ↦ false ]

pub same_refl : (a : Text) → same a a ≡ true
same_refl a = ground arith

pub same→eq : (a b : Text) → same a b ≡ true → a ≡ b
same→eq a b h = ground arith

pub ne→same : (a b : Text) → a ≢ b → same a b ≡ false
ne→same a b h = ground arith

abbrev pub is_empty : Text → Bool
is_empty [] = true
is_empty (c ∷ s) = false

same_alice : same (codes "alice") (codes "alice") ≡ true
unfolding text_discrete
same_alice = refl
