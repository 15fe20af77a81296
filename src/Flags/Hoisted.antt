-- ===== src/Flags/Hoisted.antt =====
-- Hoisting loses no argument.
use mathlib.Core.List.{Perm, perm_middle}
use mathlib.Core.List.Perm
use mess.Base.{
  arith, ◌≡◌, if◌then◌else◌, subst, Text, Bool, true, false, inl, inr, List, [], ◌∷◌, ◌++◌,
  Bool-cases, same, same→eq,
}
use mess.Flags.{
  Hoist, terminator, with_flag, with_positional, is_flag, takes_next, collect, hoist_flags,
}

-- The arguments, with a terminator added if none of them ended the flags.
abbrev pub Same : Bool → List Text → List Text → Type 0
Same true args out = Perm args out
Same false args out = Perm (terminator ∷ args) out

laid_out : Hoist → List Text
laid_out h = h.flags ++ terminator ∷ h.positionals

Same-flag :
    (ended : Bool) (a : Text) (args : List Text) (h : Hoist)
    → Same ended args (laid_out h)
    → Same ended (a ∷ args) (laid_out (with_flag a h))
unfolding with_flag laid_out
Same-flag true a args h p = Perm.cons a p
Same-flag false a args h p = Perm.trans (Perm.swap a terminator args) (Perm.cons a p)

past : (a : Text) (h : Hoist) → Perm (a ∷ laid_out h) (laid_out (with_positional a h))
unfolding with_positional laid_out
past a h = Perm.trans (Perm.cons a (perm_middle h.flags h.positionals)) (
    Perm.trans (Perm.swap terminator a (h.flags ++ h.positionals)) (
      Perm.trans (Perm.cons terminator (Perm.symm (perm_middle h.flags h.positionals)))
        (Perm.symm (perm_middle h.flags (a ∷ h.positionals)))))

Same-positional :
    (ended : Bool) (a : Text) (args : List Text) (h : Hoist)
    → Same ended args (laid_out h)
    → Same ended (a ∷ args) (laid_out (with_positional a h))
Same-positional true a args h p = Perm.trans (Perm.cons a p) (past a h)
Same-positional false a args h p =
    Perm.trans (Perm.swap a terminator args) (Perm.trans (Perm.cons a p) (past a h))

module _ (value_flags bool_flags : List Text) where
  -- Whether an argument is a terminator and no flag's value. The flag says that the argument before
  -- is one that takes a value.
  pub ends_flags : Bool → List Text → Bool
  ends_flags value [] = false
  ends_flags true (a ∷ args) = ends_flags false args
  ends_flags false (a ∷ args) =
      let rest = ends_flags (takes_next value_flags bool_flags a) args in
      if same a terminator then true else rest

  takes_next-flag :
      (a : Text)
      → is_flag value_flags bool_flags a ≡ false
      → takes_next value_flags bool_flags a ≡ false
  unfolding is_flag takes_next mess.Flags.is_known
  takes_next-flag a h = ground (arith, h)

  collect-Same :
      (value : Bool) (args : List Text)
      → Same (ends_flags value args) args (laid_out (collect value_flags bool_flags value args))
  unfolding collect ends_flags
  collect-Same true [] = unfold laid_out in Perm.refl _
  collect-Same false [] = unfold laid_out in Perm.refl _
  collect-Same true (a ∷ args) =
      Same-flag (ends_flags false args) a args _ (collect-Same false args)
  collect-Same false (a ∷ args) = elim (Bool-cases (same a terminator)) [
    | inl e ↦ rw e (
        unfold laid_out in
        subst (λ x. Perm (a ∷ args) (x ∷ args)) (same→eq a terminator e) (Perm.refl _))
    | inr e ↦ elim (Bool-cases (is_flag value_flags bool_flags a)) [
      | inl f ↦
          let value = takes_next value_flags bool_flags a in
          rw (e, f) (Same-flag (ends_flags value args) a args _ (collect-Same value args))
      | inr f ↦
          rw (e, f, takes_next-flag a f)
            (Same-positional (ends_flags false args) a args _ (collect-Same false args))
    ]
  ]

  -- Bringing the flags of a command line to the front loses, doubles and changes no argument: what
  -- comes out is what went in, in another order, with one terminator more exactly if none of the
  -- arguments was a terminator that is no flag's value.
  pub hoist_flags_lem :
      (args : List Text)
      → Same (ends_flags false args) args (hoist_flags value_flags bool_flags args).0
  unfolding hoist_flags
  hoist_flags_lem args = unfold laid_out in collect-Same false args
