-- ===== src/Sweeps/Selected.antt =====
-- The keys of the entries that a sweep selects.
use mess.Base.{
  keys_of, ◌≡◌, refl, ◌∙◌, Bool, false, ◌||◌, List, [], ◌∷◌, arith, Bool-cases, subst, inl, inr,
  Text, same, same_refl, same→eq, contains, Option, none, some, Map, find, select, sort_by,
  insert_by, Distinct,
}

contains-insert_by :
    (less : Text → Text → Bool) (k x : Text) (ys : List Text)
    → contains k (insert_by less x ys) ≡ same x k || contains k ys
unfolding contains insert_by
contains-insert_by less k x [] = refl
contains-insert_by less k x (y ∷ ys) = ground (arith, contains-insert_by less k x ys)

pub contains-sort_by :
    (less : Text → Text → Bool) (k : Text) (xs : List Text)
    → contains k (sort_by less xs) ≡ contains k xs
unfolding contains sort_by
contains-sort_by less k [] = refl
contains-sort_by less k (x ∷ xs) =
    contains-insert_by less k x (sort_by less xs) ∙ rw (contains-sort_by less k xs) refl

module _ {V : Type 0} where
  module _ (p : Text × V → Bool) where
    abbrev pub chosen : Text → Option V → Bool
    chosen k none = false
    chosen k (some v) = p (k, v)

    contains-select_absent :
        (k : Text) (m : Map V)
        → contains k (keys_of m) ≡ false
        → contains k (keys_of (select p m)) ≡ false
    unfolding contains select
    contains-select_absent k [] h = refl
    contains-select_absent k ((j, v) ∷ m) h = elim (Bool-cases (p (j, v))) [
      | inl e ↦ rw e (ground (arith, contains-select_absent k m))
      | inr e ↦ rw e (ground (arith, contains-select_absent k m))
    ]

    abbrev At : Text → V → Map V → Text → Type 0
    At j v m k = contains k (keys_of (select p ((j, v) ∷ m))) ≡ chosen k (find k ((j, v) ∷ m))

    At-head :
        (j : Text) (v : V) (m : Map V) → contains j (keys_of (select p m)) ≡ false → At j v m j
    unfolding contains select find
    At-head j v m h = elim (Bool-cases (p (j, v))) [
      | inl e ↦ rw (e, same_refl j, e) refl
      | inr e ↦ rw (e, same_refl j, e) h
    ]

    -- With each key once, a key is among those selected as its value is.
    pub contains-select :
        (k : Text) (m : Map V)
        → Distinct (keys_of m)
        → contains k (keys_of (select p m)) ≡ chosen k (find k m)
    unfolding contains select find
    contains-select k [] d = refl
    contains-select k ((j, v) ∷ m) (new, d) =
        let here : contains j (keys_of (select p m)) ≡ false = contains-select_absent j m new in
        elim (Bool-cases (same j k)) [
          | inl e ↦ subst (At j v m) (same→eq j k e) (At-head j v m here)
          | inr e ↦ elim (Bool-cases (p (j, v))) [
            | inl t ↦ rw (t, e) (contains-select k m d)
            | inr t ↦ rw (t, e) (contains-select k m d)
          ]
        ]
