-- ===== src/Inbox/Split.antt =====
-- The loop of `drainMatchingLocked`: what is taken, what is kept, and that nothing is lost.
use mathlib.Core.List.{Perm, perm_middle, Sublist}
use mathlib.Core.List.Perm
use mathlib.Core.List.Sublist
use mess.Base.{
  ℕ, zero, suc, ◌+◌, ◌≡◌, refl, ap, inl, inr, Bool, true, false, ◌&&◌, List, [], ◌∷◌, ◌++◌, arith,
  select, take, Bool-cases,
}
use mess.Wire.{Message}
use mess.Inbox.{room_for, split}

-- All of a list, or its first `max` elements.
abbrev pub limit : ℕ → List Message → List Message
limit zero xs = xs
limit (suc max) xs = take (suc max) xs

module _ (match : Message → Bool) where
  split_all : (n : ℕ) (ms : List Message) → (split match 0 n ms).0 ≡ select match ms
  unfolding split select
  split_all n [] = refl
  split_all n (m ∷ ms) = elim (Bool-cases (match m)) [
    | inl e ↦ rw e (ap (◌∷◌ m) (split_all (n + 1) ms))
    | inr e ↦ rw e (split_all n ms)
  ]

  take-zero : (xs : List Message) → take 0 xs ≡ []
  take-zero xs = refl

  split_some :
      (max n k : ℕ) (ms : List Message)
      → n + k ≡ suc max
      → (split match (suc max) n ms).0 ≡ take k (select match ms)
  unfolding split select
  split_some max n zero [] h = refl
  split_some max n (suc k) [] h = refl
  split_some max n zero (m ∷ ms) h =
      let full : room_for match (suc max) n ≡ false = ground arith in
      elim (Bool-cases (match m)) [
        | inl e ↦ rw (e, full) (split_some max n zero ms h)
        | inr e ↦ rw e (split_some max n zero ms h)
      ]
  split_some max n (suc k) (m ∷ ms) h =
      let free : room_for match (suc max) n ≡ true = ground arith in
      elim (Bool-cases (match m)) [
        | inl e ↦ rw (e, free) (ap (◌∷◌ m) (split_some max (n + 1) k ms (omega arith)))
        | inr e ↦ rw e (split_some max n (suc k) ms h)
      ]

  -- What is taken: the first `max` messages that match, in their order, or all of them.
  pub split-limit :
      (max : ℕ) (ms : List Message) → (split match max 0 ms).0 ≡ limit max (select match ms)
  split-limit zero ms = split_all 0 ms
  split-limit (suc max) ms = split_some max 0 (suc max) ms (omega arith)

module _ (match : Message → Bool) (max : ℕ) where
  -- Nothing is lost or doubled.
  pub split-perm :
      (n : ℕ) (ms : List Message) → Perm ms ((split match max n ms).0 ++ (split match max n ms).1)
  unfolding split
  split-perm n [] = Perm.refl []
  split-perm n (m ∷ ms) = elim (Bool-cases (match m && room_for match max n)) [
    | inl e ↦ rw e (Perm.cons m (split-perm (n + 1) ms))
    | inr e ↦ rw e (
        Perm.trans (Perm.cons m (split-perm n ms))
          (Perm.symm (perm_middle (split match max n ms).0 (split match max n ms).1)))
  ]

  -- What is kept stays in its order.
  pub split-sublist : (n : ℕ) (ms : List Message) → Sublist (split match max n ms).1 ms
  unfolding split
  split-sublist n [] = Sublist.refl []
  split-sublist n (m ∷ ms) = elim (Bool-cases (match m && room_for match max n)) [
    | inl e ↦ rw e (Sublist.cons m (split-sublist (n + 1) ms))
    | inr e ↦ rw e (Sublist.cons-cons m (split-sublist n ms))
  ]
