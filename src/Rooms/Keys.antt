-- ===== src/Rooms/Keys.antt =====
-- The round trips of rooms.go: keys split back into room and name, and printed names parse back.
use mess.Base.{ℕ, Text, ◌≡◌, refl, ◌≢◌, false, none, some, [], ◌∷◌, ◌++◌, arith, All}
use mess.Rooms.{
  room_sep, cut, contains_byte, agent_key, split_agent_key, display_name, parse_display_name,
}

-- A text without a byte.
abbrev pub Lacks : ℕ → Text → Type 0
Lacks b = All (λ c. c ≢ b)

pub cut_first : (sep : ℕ) (s t : Text) → Lacks sep s → cut sep (s ++ sep ∷ t) ≡ some (s, t)
unfolding cut
cut_first sep [] t h = ground arith
cut_first sep (c ∷ s) t (hc, hs) = ground (arith, cut_first sep s t hs)

pub cut_absent : (sep : ℕ) (s : Text) → Lacks sep s → cut sep s ≡ none
unfolding cut
cut_absent sep [] h = refl
cut_absent sep (c ∷ s) (hc, hs) = ground (arith, cut_absent sep s hs)

Lacks-contains_byte : (b : ℕ) (s : Text) → Lacks b s → contains_byte b s ≡ false
unfolding contains_byte
Lacks-contains_byte b [] h = refl
Lacks-contains_byte b (c ∷ s) (hc, hs) = ground (arith, Lacks-contains_byte b s hs)

-- A key made of a room and a non-empty name, both free of the separator, splits back into that
-- room and that name.
pub split_agent_key-agent_key :
    (room name : Text)
    → Lacks room_sep room
    → Lacks room_sep name
    → name ≢ []
    → split_agent_key (agent_key room name) ≡ (room, name)
unfolding split_agent_key agent_key
split_agent_key-agent_key room [] hr hn h = absurd (h refl)
split_agent_key-agent_key [] (c ∷ name) hr hn h = ground (arith, cut_absent room_sep (c ∷ name) hn)
split_agent_key-agent_key (r ∷ room) (c ∷ name) hr hn h =
    ground (arith, cut_first room_sep (r ∷ room) (c ∷ name) hr)

-- What `displayName` prints for a named room parses back, if neither part holds a slash and
-- neither is empty.
pub parse_display_name-display_name :
    (room name : Text)
    → Lacks b'/' room
    → Lacks b'/' name
    → room ≢ []
    → name ≢ []
    → parse_display_name (display_name room name) ≡ some (room, name)
unfolding parse_display_name display_name
parse_display_name-display_name [] name hr hn h k = absurd (h refl)
parse_display_name-display_name (r ∷ room) [] hr hn h k = absurd (k refl)
parse_display_name-display_name (r ∷ room) (c ∷ name) hr hn h k =
    ground (arith, cut_first b'/' (r ∷ room) (c ∷ name) hr, Lacks-contains_byte b'/' (c ∷ name) hn)
