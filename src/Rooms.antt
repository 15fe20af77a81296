-- ===== src/Rooms.antt =====
-- rooms.go: composite keys of a room and a name, and the order of a listing. A Go string is its
-- list of bytes; `roomSep` is the byte 0.
pub mod Keys
use mess.Base.{
  ℕ, Text, codes, ◌≡◌, refl, Bool, true, false, ◌||◌, Option, none, some, List, [], ◌∷◌, ◌++◌, ltb,
  ◌==◌, same, is_empty, if◌then◌else◌, text_discrete,
}

abbrev pub room_sep : ℕ
room_sep = 0

-- strings.Cut at the first occurrence of a one-byte separator.
unfoldable pub cut : ℕ → Text → Option (Text × Text)
cut sep [] = none
cut sep (c ∷ s) =
    let rest = elim (cut sep s) as (λ _. Option (Text × Text)) [
      | none ↦ none
      | some (before, after) ↦ some (c ∷ before, after)
    ] in
    if c == sep then some ([], s) else rest

-- strings.Contains of a one-byte text.
unfoldable pub contains_byte : ℕ → Text → Bool
contains_byte b [] = false
contains_byte b (c ∷ s) = c == b || contains_byte b s

-- The order of Go's `<` on strings.
unfoldable pub text_lt : Text → Text → Bool
text_lt [] [] = false
text_lt [] (d ∷ t) = true
text_lt (c ∷ s) [] = false
text_lt (c ∷ s) (d ∷ t) =
    let rest = text_lt s t in if ltb c d then true else if ltb d c then false else rest

unfoldable pub agent_key : Text → Text → Text
agent_key room name = if is_empty room || is_empty name then name else room ++ room_sep ∷ name

unfoldable pub split_agent_key : Text → Text × Text
unfolding cut
split_agent_key key = elim (cut room_sep key) [ some (r, n) ↦ (r, n) | none ↦ ([], key) ]

unfoldable pub topic_key : Text → Text → Text
unfolding agent_key
topic_key room topic = agent_key room topic

unfoldable pub split_topic_key : Text → Text × Text
unfolding split_agent_key
split_topic_key key = split_agent_key key

-- The bare name of a key, `_, name := splitAgentKey(key)`, and its room.
abbrev pub bare : Text → Text
bare key = (split_agent_key key).1

abbrev pub room_of : Text → Text
room_of key = (split_agent_key key).0

unfoldable pub display_name : Text → Text → Text
display_name room name = if is_empty room then name else room ++ b'/' ∷ name

unfoldable pub parse_display_name : Text → Option (Text × Text)
unfolding cut contains_byte
parse_display_name s = elim (cut b'/' s) [
  | none ↦ none
  | some (room, name) ↦
      if is_empty room || is_empty name || contains_byte b'/' name then none else some (room, name)
]

unfoldable pub room_then_name_less : Text → Text → Text → Text → Bool
unfolding text_lt
room_then_name_less room_a name_a room_b name_b =
    if same room_a room_b then text_lt name_a name_b else text_lt room_a room_b

-- daemon.go: how a room is named to a reader.
unfoldable pub room_label : Text → Text
room_label room = if is_empty room then codes "(global)" else room

split_test : split_agent_key (agent_key (codes "peri") (codes "bob")) ≡ (codes "peri", codes "bob")
unfolding split_agent_key agent_key
split_test = refl

parse_test : parse_display_name (codes "peri/bob") ≡ some (codes "peri", codes "bob")
unfolding parse_display_name
parse_test = refl

parse_bare : parse_display_name (codes "bob") ≡ none
unfolding parse_display_name
parse_bare = refl

less_test : room_then_name_less (codes "a") (codes "z") (codes "b") (codes "a") ≡ true
unfolding room_then_name_less text_discrete
less_test = refl
