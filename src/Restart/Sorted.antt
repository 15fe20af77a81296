-- ===== src/Restart/Sorted.antt =====
-- Sorting keeps what is selected, where that is one element or none.
use mess.Base.{
  ◌≡◌, ◌⊎◌, refl, ap, ◌∙◌, Bool, true, false, List, [], ◌∷◌, arith, select, sort_by, insert_by,
  Bool-cases, inl, inr,
}

module _ {A : Type 0} (less : A → A → Bool) (p : A → Bool) where
  select-insert_by-no :
      (x : A) (ys : List A) → p x ≡ false → select p (insert_by less x ys) ≡ select p ys
  unfolding select insert_by
  select-insert_by-no x [] h = rw h refl
  select-insert_by-no x (y ∷ ys) h = elim (Bool-cases (less y x)) [
    | inl l ↦ elim (Bool-cases (p y)) [
      | inl t ↦ rw (l, t) (ap (◌∷◌ y) (select-insert_by-no x ys h))
      | inr t ↦ rw (l, t) (select-insert_by-no x ys h)
    ]
    | inr l ↦ rw (l, h) refl
  ]

  pub select-cons-none :
      (x : A) (xs : List A) → select p (x ∷ xs) ≡ [] → (p x ≡ false) × (select p xs ≡ [])
  unfolding select
  select-cons-none x xs e = ground (arith, e)

  pub select-cons-one :
      (s x : A) (xs : List A)
      → select p (x ∷ xs) ≡ s ∷ []
      → ((p x ≡ true) × (x ≡ s) × (select p xs ≡ [])) ⊎ ((p x ≡ false) × (select p xs ≡ s ∷ []))
  unfolding select
  select-cons-one s x xs e = ground (arith, e)

  select-insert_by-one :
      (x : A) (ys : List A)
      → p x ≡ true
      → select p ys ≡ []
      → select p (insert_by less x ys) ≡ x ∷ []
  unfolding select insert_by
  select-insert_by-one x [] h e = rw h refl
  select-insert_by-one x (y ∷ ys) h e = elim (Bool-cases (less y x)) [
    | inl l ↦
        let (out, rest) = select-cons-none y ys e in rw (l, out) (select-insert_by-one x ys h rest)
    | inr l ↦ rw (l, h, e) refl
  ]

  -- Sorting keeps what is selected, where that is none or one.
  select-sort_by-none : (xs : List A) → select p xs ≡ [] → select p (sort_by less xs) ≡ []
  unfolding select sort_by
  select-sort_by-none [] e = refl
  select-sort_by-none (x ∷ xs) e =
      let (out, rest) = select-cons-none x xs e in
      select-insert_by-no x (sort_by less xs) out ∙ select-sort_by-none xs rest

  pub select-sort_by-one :
      (s : A) (xs : List A) → select p xs ≡ s ∷ [] → select p (sort_by less xs) ≡ s ∷ []
  unfolding select sort_by
  select-sort_by-one s [] e = e
  select-sort_by-one s (x ∷ xs) e = elim (select-cons-one s x xs e) [
    | inl (mine, here, rest) ↦
        select-insert_by-one x (sort_by less xs) mine (select-sort_by-none xs rest)
        ∙ ap (λ y. y ∷ []) here
    | inr (out, there) ↦ select-insert_by-no x (sort_by less xs) out ∙ select-sort_by-one s xs there
  ]
