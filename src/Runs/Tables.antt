-- ===== src/Runs/Tables.antt =====
-- Tables with each key once, and sets that hold each member once: what keeps them so.
use mess.Base.{
  keys_of, ◌≡◌, refl, Bool, Bool-cases, inl, inr, true, false, ◌&&◌, ◌||◌, not, List, [], ◌∷◌,
  arith, if◌then◌else◌, Text, same, contains, contains-add, contains-remove, add, remove, Distinct,
  or_zero, Map, find, put, delete, All,
}

module _ {V : Type 0} where
  contains-keys_of-put :
      (k j : Text) (v : V) (m : Map V)
      → contains j (keys_of (put k v m)) ≡ same k j || contains j (keys_of m)
  unfolding contains put
  contains-keys_of-put k j v [] = refl
  contains-keys_of-put k j v ((i, w) ∷ m) = elim (Bool-cases (same i k)) [
    | inl e ↦ rw e (ground (arith, e))
    | inr e ↦ rw e (ground (arith, contains-keys_of-put k j v m))
  ]

  contains-keys_of-delete :
      (k j : Text) (m : Map V)
      → contains j (keys_of (delete k m)) ≡ not (same k j) && contains j (keys_of m)
  unfolding contains delete
  contains-keys_of-delete k j [] = ground arith
  contains-keys_of-delete k j ((i, w) ∷ m) = elim (Bool-cases (same i k)) [
    | inl e ↦ rw e (ground (arith, e, contains-keys_of-delete k j m))
    | inr e ↦ rw e (ground (arith, e, contains-keys_of-delete k j m))
  ]

  pub Distinct-put :
      (k : Text) (v : V) (m : Map V) → Distinct (keys_of m) → Distinct (keys_of (put k v m))
  unfolding put contains
  Distinct-put k v [] d = (refl, tt)
  Distinct-put k v ((i, w) ∷ m) (new, d) = elim (Bool-cases (same i k)) [
    | inl e ↦ rw e (ground (arith, e), d)
    | inr e ↦ rw e (ground (arith, e, contains-keys_of-put k i v m), Distinct-put k v m d)
  ]

  pub Distinct-delete :
      (k : Text) (m : Map V) → Distinct (keys_of m) → Distinct (keys_of (delete k m))
  unfolding delete
  Distinct-delete k [] d = tt
  Distinct-delete k ((i, w) ∷ m) (new, d) = elim (Bool-cases (same i k)) [
    | inl e ↦ rw e (Distinct-delete k m d)
    | inr e ↦ rw e (ground (arith, contains-keys_of-delete k i m), Distinct-delete k m d)
  ]

pub Distinct-add : (k : Text) (s : List Text) → Distinct s → Distinct (add k s)
unfolding add contains
Distinct-add k [] d = (refl, tt)
Distinct-add k (j ∷ s) (new, d) = elim (Bool-cases (same j k)) [
  | inl e ↦ rw e (new, d)
  | inr e ↦ rw e (ground (arith, e, contains-add k j s), Distinct-add k s d)
]

pub Distinct-remove : (k : Text) (s : List Text) → Distinct s → Distinct (remove k s)
unfolding remove
Distinct-remove k [] d = tt
Distinct-remove k (j ∷ s) (new, d) = elim (Bool-cases (same j k)) [
  | inl e ↦ rw e (Distinct-remove k s d)
  | inr e ↦ rw e (ground (arith, contains-remove k j s), Distinct-remove k s d)
]

-- Each set of a table holds each member once.
abbrev pub Sets : Map (List Text) → Type 0
Sets m = All (λ (e : Text × List Text). Distinct e.1) m

pub Sets-find : (k : Text) (m : Map (List Text)) → Sets m → Distinct (or_zero [] (find k m))
unfolding find
Sets-find k [] h = tt
Sets-find k ((i, s) ∷ m) (d, h) = elim (Bool-cases (same i k)) [
  | inl e ↦ rw e d
  | inr e ↦ rw e (Sets-find k m h)
]

pub Sets-put :
    (k : Text) (s : List Text) (m : Map (List Text)) → Distinct s → Sets m → Sets (put k s m)
unfolding put
Sets-put k s [] d h = (d, tt)
Sets-put k s ((i, t) ∷ m) d (dt, h) = elim (Bool-cases (same i k)) [
  | inl e ↦ rw e (d, h)
  | inr e ↦ rw e (dt, Sets-put k s m d h)
]

pub Sets-delete : (k : Text) (m : Map (List Text)) → Sets m → Sets (delete k m)
unfolding delete
Sets-delete k [] h = tt
Sets-delete k ((i, t) ∷ m) (dt, h) = elim (Bool-cases (same i k)) [
  | inl e ↦ rw e (Sets-delete k m h)
  | inr e ↦ rw e (dt, Sets-delete k m h)
]

pub either : {A : Type 0} (P : A → Type 0) (c : Bool) (x y : A) → P x → P y → P (if c then x else y)
either P true x y h k = h
either P false x y h k = k
