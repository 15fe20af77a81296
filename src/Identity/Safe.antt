-- ===== src/Identity/Safe.antt =====
-- The file names that session ids become.
use mess.Runs.Tables.{either}
use mess.Base.{
  zero, ◌&&◌, suc, not, ℕ, ◌≡◌, ◌≤◌, refl, Text, codes, Bool, true, false, ◌||◌, [], ◌∷◌, is_empty,
  ◌==◌, take, All, Bool-cases, inl, inr, arith, length,
}
use mess.Identity.{is_plain, sanitize, trim_left, trim_right, state_key, max_key}

-- A byte that a file name may hold.
abbrev pub Safe : ℕ → Type 0
Safe c = is_plain c || c == b'-' ≡ true

abbrev pub SafeName : Text → Type 0
SafeName s = All Safe s

dash-Safe : Safe b'-'
unfolding is_plain
dash-Safe = refl

sanitize-Safe : (prev started : Bool) (s : Text) → SafeName (sanitize prev started s)
unfolding sanitize
sanitize-Safe prev started [] = tt
sanitize-Safe prev started (c ∷ s) = elim (Bool-cases (is_plain c)) [
  | inl e ↦ rw e (ground (arith, e), sanitize-Safe false true s)
  | inr e ↦ rw e (
      either SafeName (c == b'-') _ _
        (either SafeName (not prev && started) _ _ (dash-Safe, sanitize-Safe true started s)
          (sanitize-Safe true started s))
        (sanitize-Safe prev started s))
]

trim_left-Safe : (s : Text) → SafeName s → SafeName (trim_left s)
unfolding trim_left
trim_left-Safe [] h = tt
trim_left-Safe (c ∷ s) (p, h) = either SafeName (c == b'-') _ _ (trim_left-Safe s h) (p, h)

trim_right-Safe : (s : Text) → SafeName s → SafeName (trim_right s)
unfolding trim_right
trim_right-Safe [] h = tt
trim_right-Safe (c ∷ s) (p, h) =
    either SafeName (c == b'-' && is_empty (trim_right s)) _ _ tt (p, trim_right-Safe s h)

take-Safe : (n : ℕ) (s : Text) → SafeName s → SafeName (take n s)
take-Safe zero s h = tt
take-Safe (suc n) [] h = tt
take-Safe (suc n) (c ∷ s) (p, h) = (p, take-Safe n s h)

length-take : (n : ℕ) (s : Text) → length (take n s) ≤ n
length-take zero s = omega arith
length-take (suc n) [] = omega arith
length-take (suc n) (c ∷ s) = omega (arith, length-take n s)

anon-Safe : SafeName (codes "anon")
unfolding is_plain
anon-Safe = (refl, (refl, (refl, (refl, tt))))

-- A session's id, whatever bytes it holds, becomes the name of a file that is not empty, has at most
-- 120 bytes, and holds letters, digits, dots, underscores and dashes only.
pub state_key_lem :
    (sid : Text)
    → (is_empty (state_key sid) ≡ false)
      × (length (state_key sid) ≤ max_key)
      × SafeName (state_key sid)
unfolding state_key
state_key_lem sid =
    let whole = trim_right (trim_left (sanitize false false sid)) in
    let safe =
      take-Safe max_key whole
        (trim_right-Safe _ (trim_left-Safe _ (sanitize-Safe false false sid))) in
    elim (Bool-cases (is_empty (take max_key whole))) [
      | inl e ↦ rw e (refl, omega arith, anon-Safe)
      | inr e ↦ rw e (e, length-take max_key whole, safe)
    ]
