-- ===== src/Mentions.antt =====
-- broker.go: `mentionRe` and `mentionsIn`, over the bytes of a body; `missingMentions`; and
-- notify.go: which mentions and recipients are the human operator's. Every class of the expression
-- is ASCII, so a byte of a longer character is in none of them.
pub mod Sound
use mess.Base.{
  ℕ, ◌+◌, Text, codes, ◌≡◌, refl, Bool, true, false, ◌&&◌, ◌||◌, not, List, [], ◌∷◌, ◌++◌, map, ltb,
  leb, ◌==◌, if◌then◌else◌, contains, add, select, sort_by, text_discrete, Option, none, some,
  is_empty,
}
use mess.Rooms.{text_lt}

-- [A-Za-z0-9]
unfoldable pub is_alnum : ℕ → Bool
is_alnum c = leb b'A' c && leb c b'Z' || leb b'a' c && leb c b'z' || leb b'0' c && leb c b'9'

-- [A-Za-z0-9_-]
unfoldable pub is_word : ℕ → Bool
unfolding is_alnum
is_word c = is_alnum c || c == b'_' || c == b'-'

-- \s: tab, newline, form feed, carriage return, space.
unfoldable pub is_space : ℕ → Bool
is_space c = c == 9 || c == 10 || c == 12 || c == 13 || c == 32

-- [A-Za-z0-9_-]*, greedy.
unfoldable pub word : Text → Text
unfolding is_word
word [] = []
word (c ∷ s) = if is_word c then c ∷ word s else []

-- What follows an @ that may start a mention.
unfoldable pub name_at : Text → List Text
unfolding word is_alnum
name_at [] = []
name_at (c ∷ s) = if is_alnum c then (c ∷ word s) ∷ [] else []

-- All matches, left to right; the flag says that the text starts here or a space came just before.
-- A match holds no space after its @, so the scan may go on inside of it.
unfoldable pub matches : Bool → Text → List Text
unfolding name_at is_space
matches bound [] = []
matches bound (c ∷ s) = (if bound && c == b'@' then name_at s else []) ++ matches (is_space c) s

to_set : List Text → List Text
to_set [] = []
to_set (x ∷ xs) = add x (to_set xs)

unfoldable pub mentions_in : Text → List Text
unfolding matches to_set
mentions_in body = to_set (matches true body)

-- strings.ToLower, on ASCII letters.
unfoldable pub to_lower : Text → Text
to_lower = map λ c. if leb b'A' c && leb c b'Z' then c + 32 else c

-- The operator's names: "user" and the login names, in lower case.
unfoldable pub user_handles : List Text → List Text
unfolding to_lower to_set
user_handles logins = codes "user" ∷ map to_lower logins

module _ (logins : List Text) where
  unfoldable pub is_user_handle : Text → Bool
  unfolding user_handles
  is_user_handle name = contains (to_lower name) (user_handles logins)

  -- The mentions in a body that reach nobody, sorted.
  unfoldable pub missing_mentions : Text → List Text → List Text
  unfolding is_user_handle
  missing_mentions body reach =
      sort_by text_lt
        (select (λ name. not (contains name reach || is_user_handle name)) (mentions_in body))

mentions_test : mentions_in (codes "@bob hi, a@b @al-1! @bob") ≡ codes "bob" ∷ codes "al-1" ∷ []
unfolding mentions_in contains add text_discrete
mentions_test = refl
