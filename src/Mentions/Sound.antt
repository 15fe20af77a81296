-- ===== src/Mentions/Sound.antt =====
-- `mentionsIn` against the declarative reading of its expression.
use mess.Base.{
  ℕ, Text, ◌≡◌, ◌↔◌, refl, ap, ap₂, subst, if◌then◌else◌, ◌==◌, Bool, true, false, ◌&&◌, ◌||◌, List,
  [], ◌∷◌, ◌++◌, arith, contains, contains-add, All, same_refl, Bool-cases, inl, inr, ◌⊎◌,
}
use mess.Mentions.{is_alnum, is_word, is_space, word, name_at, matches, to_set, mentions_in}

-- The text before a mention is empty or ends in a space.
abbrev pub Boundary : Bool → Text → Type 0
Boundary bound [] = bound ≡ true
Boundary bound (c ∷ s) = Boundary (is_space c) s

-- [A-Za-z0-9][A-Za-z0-9_-]*
abbrev pub IsName : Text → Type 0
IsName [] = ⊥
IsName (c ∷ s) = (is_alnum c ≡ true) × All (λ d. is_word d ≡ true) s

-- The name cannot go on.
abbrev pub Stops : Text → Type 0
Stops [] = Unit
Stops (c ∷ s) = is_word c ≡ false

abbrev pub Mentioned : Bool → Text → Text → Type 0
Mentioned bound name body =
    (before : Text) × (after : Text) × (body ≡ before ++ b'@' ∷ (name ++ after))
    × Boundary bound before
    × IsName name
    × Stops after

word-append : (s t : Text) → All (λ d. is_word d ≡ true) s → Stops t → word (s ++ t) ≡ s
unfolding word
word-append [] [] h k = refl
word-append [] (c ∷ t) h k = rw k
word-append (c ∷ s) t (hc, hs) k = rw (hc, word-append s t hs k)

name_at-append : (s t : Text) → IsName s → Stops t → name_at (s ++ t) ≡ s ∷ []
unfolding name_at
name_at-append [] t h k = absurd h
name_at-append (c ∷ s) t (hc, hs) k = rw (hc, word-append s t hs k)

contains-append :
    (k : Text) (xs ys : List Text) → contains k (xs ++ ys) ≡ contains k xs || contains k ys
unfolding contains
contains-append k [] ys = refl
contains-append k (x ∷ xs) ys = ground (arith, contains-append k xs ys)

or_true : (b : Bool) → b || true ≡ true
or_true true = refl
or_true false = refl

matches_complete :
    (before after name : Text) (bound : Bool)
    → Boundary bound before
    → IsName name
    → Stops after
    → contains name (matches bound (before ++ b'@' ∷ (name ++ after))) ≡ true
unfolding matches contains
matches_complete [] after name bound hb hn hs =
    rw (hb, name_at-append name after hn hs, same_refl) refl
matches_complete (c ∷ before) after name bound hb hn hs =
    rw
      (
        contains-append name _ (matches (is_space c) (before ++ b'@' ∷ (name ++ after))),
        matches_complete before after name (is_space c) hb hn hs,
      )
      (or_true _)

-- A run of name characters and what stops it.
word-split :
    (s : Text)
    → (after : Text) × (s ≡ word s ++ after) × All (λ d. is_word d ≡ true) (word s) × Stops after
unfolding word
word-split [] = ([], refl, tt, tt)
word-split (c ∷ s) = elim (Bool-cases (is_word c)) [
  | inl e ↦
      let (after, split, run, stop) = word-split s in rw e (after, ap (◌∷◌ c) split, (e, run), stop)
  | inr e ↦ rw e (c ∷ s, refl, tt, e)
]

name_at_sound :
    (name s : Text)
    → contains name (name_at s) ≡ true
    → (after : Text) × (s ≡ name ++ after) × IsName name × Stops after
unfolding name_at contains
name_at_sound name [] h = absurd (cc)
name_at_sound name (c ∷ s) h = elim (Bool-cases (is_alnum c)) [
  | inl e ↦
      let found : c ∷ word s ≡ name = ground arith in
      let (after, split, run, stop) = word-split s in
      subst (λ n. (rest : Text) × (c ∷ s ≡ n ++ rest) × IsName n × Stops rest) found
        (after, ap (◌∷◌ c) split, (e, run), stop)
  | inr e ↦ absurd (ground arith)
]

-- A match is either at the front or further on.
matches_cases :
    (name s : Text) (c : ℕ) (bound : Bool)
    → contains name (matches bound (c ∷ s)) ≡ true
    → ((bound ≡ true) × (c ≡ b'@') × (contains name (name_at s) ≡ true))
      ⊎ (contains name (matches (is_space c) s) ≡ true)
unfolding matches contains
matches_cases name s c bound h = ground (
  arith,
  contains-append name (if bound && c == b'@' then name_at s else []) (matches (is_space c) s),
)

matches_sound :
    (name body : Text) (bound : Bool)
    → contains name (matches bound body) ≡ true
    → Mentioned bound name body
matches_sound name [] bound h = absurd (unfold matches contains in cc)
matches_sound name (c ∷ s) bound h = elim (matches_cases name s c bound h) [
  | inl (b, at, found) ↦
      let (after, split, is_name, stop) = name_at_sound name s found in
      ([], after, ap₂ ◌∷◌ at split, b, is_name, stop)
  | inr later ↦
      let (before, after, split, edge, is_name, stop) = matches_sound name s (is_space c) later in
      (c ∷ before, after, ap (◌∷◌ c) split, edge, is_name, stop)
]

contains-to_set : (k : Text) (xs : List Text) → contains k (to_set xs) ≡ contains k xs
unfolding to_set contains
contains-to_set k [] = refl
contains-to_set k (x ∷ xs) = rw (contains-add x k (to_set xs), contains-to_set k xs) refl

-- A name is in `mentionsIn(body)` exactly when the body has an @ at its start or behind a space,
-- followed by that name (a letter or digit, then letters, digits, `_` and `-`), and then by the end
-- or by a character that could not continue the name.
pub mentions_in_iff :
    (name body : Text) → (contains name (mentions_in body) ≡ true) ↔ Mentioned true name body
unfolding mentions_in
mentions_in_iff name body = rw (contains-to_set name (matches true body)) (
  matches_sound name body true,
  λ found.
      let (before, after, split, edge, is_name, stop) = found in
      rw split (matches_complete before after name true edge is_name stop),
)
