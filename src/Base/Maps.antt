-- ===== src/Base/Maps.antt =====
-- Go maps keyed by strings, as association lists, and sets of strings as lists.
use mathlib.Core.Path.{◌≡◌, refl, subst}
use mathlib.Core.Logic.{◌≢◌, inl, inr}
use mathlib.Core.Bool.{Bool, false, ◌||◌, not, ◌&&◌}
use mathlib.Core.List.{List, [], ◌∷◌, map}
use mathlib.Core.Option.{Option, none, some}
use native.Mathlib.Omega.{arith}
use mess.Base.Tests.{if◌then◌else◌, Bool-cases}
use mess.Base.Strings.{Text, same}

abbrev pub Map {ℓ} : Type ℓ → Type ℓ
Map V = List (Text × V)

module _ {ℓ} {V : Type ℓ} where
  abbrev pub keys_of : Map V → List Text
  keys_of m = map (λ (e : Text × V). e.0) m

  unfoldable pub find : Text → Map V → Option V
  find k [] = none
  find k ((j, v) ∷ m) = if same j k then some v else find k m

  -- m[k] = v: an entry keeps its place, a new one goes to the end.
  unfoldable pub put : Text → V → Map V → Map V
  put k v [] = (k, v) ∷ []
  put k v ((j, w) ∷ m) = if same j k then (k, v) ∷ m else (j, w) ∷ put k v m

  unfoldable pub delete : Text → Map V → Map V
  delete k [] = []
  delete k ((j, w) ∷ m) = let rest = delete k m in if same j k then rest else (j, w) ∷ rest

  pub find-put :
      (k j : Text) (v : V) (m : Map V)
      → find j (put k v m) ≡ (if same k j then some v else find j m)
  unfolding find put
  find-put k j v [] = refl
  find-put k j v ((i, w) ∷ m) = ground (arith, find-put k j v m)

  pub find-put_self : (k : Text) (v : V) (m : Map V) → find k (put k v m) ≡ some v
  find-put_self k v m = ground (arith, find-put k k v m)

  pub find-put_ne : (k j : Text) (v : V) (m : Map V) → k ≢ j → find j (put k v m) ≡ find j m
  find-put_ne k j v m h = ground (arith, find-put k j v m)

  pub find-delete :
      (k j : Text) (m : Map V) → find j (delete k m) ≡ (if same k j then none else find j m)
  unfolding find delete
  find-delete k j [] = ground arith
  find-delete k j ((i, w) ∷ m) = ground (arith, find-delete k j m)

-- Sets: map[string]bool with only true values.
unfoldable pub contains : Text → List Text → Bool
contains k [] = false
contains k (j ∷ s) = same j k || contains k s

unfoldable pub add : Text → List Text → List Text
add k [] = k ∷ []
add k (j ∷ s) = if same j k then j ∷ s else j ∷ add k s

unfoldable pub remove : Text → List Text → List Text
remove k [] = []
remove k (j ∷ s) = let rest = remove k s in if same j k then rest else j ∷ rest

pub contains-add : (k j : Text) (s : List Text) → contains j (add k s) ≡ same k j || contains j s
unfolding contains add
contains-add k j [] = refl
contains-add k j (i ∷ s) = ground (arith, contains-add k j s)

pub contains-remove :
    (k j : Text) (s : List Text) → contains j (remove k s) ≡ not (same k j) && contains j s
unfolding contains remove
contains-remove k j [] = ground arith
contains-remove k j (i ∷ s) = ground (arith, contains-remove k j s)

-- A set holds each of its members once.
abbrev pub Distinct : List Text → Type 0
Distinct [] = Unit
Distinct (k ∷ ks) = (contains k ks ≡ false) × Distinct ks

-- What holds of every value of a table holds of one that is found.
infixr 20 ◌▹◌
pub data Every {ℓ κ} {V : Type ℓ} (P : V → Type κ) : Map V → Type (ℓ ⊔ κ) where
  nothing : Every P []
  ◌▹◌ : {k : Text} {v : V} {m : Map V} → P v → Every P m → Every P ((k, v) ∷ m)

pub Every-find :
    {V : Type 0} {P : V → Type 0} (k : Text) (m : Map V) {v : V}
    → Every P m
    → find k m ≡ some v
    → P v
unfolding find
Every-find k [] e h = cc
Every-find {P = P} k ((j, w) ∷ m) (p ▹ e) h = elim (Bool-cases (same j k)) [
  | inl t ↦ subst P (ground (arith, t, h)) p
  | inr t ↦ Every-find k m e (ground (arith, t, h))
]
