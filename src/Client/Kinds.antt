-- ===== src/Client/Kinds.antt =====
-- main.go: resolveKinds, which makes a filter of --kind and --no-broadcast.
pub mod Added
pub mod Chosen
use mess.Base.{
  ◌++◌, none, same, [], is_empty, some, ◌&&◌, ◌||◌, Option, if◌then◌else◌, ◌==◌, false, true, Bool,
  List, ◌∷◌, ℕ, Text,
}
use mess.Wire.{kind_direct, kind_broadcast, kind_topic}

-- The white space of strings.TrimSpace, in ASCII.
is_blank : ℕ → Bool
is_blank c = c == 9 || c == 10 || c == 11 || c == 12 || c == 13 || c == 32

trim_start : Text → Text
unfolding is_blank
trim_start [] = []
trim_start (c ∷ s) = let rest = trim_start s in if is_blank c then rest else c ∷ s

trim_end : Text → Text
unfolding is_blank
trim_end [] = []
trim_end (c ∷ s) = let rest = trim_end s in if is_blank c && is_empty rest then [] else c ∷ rest

unfoldable pub trim_space : Text → Text
unfolding trim_start trim_end
trim_space s = trim_end (trim_start s)

-- The parts between the commas, at least one.
unfoldable pub split_commas : Text → List Text
split_commas [] = [] ∷ []
split_commas (c ∷ s) = elim (split_commas s) [
  | [] ↦ []
  | part ∷ rest ↦ if c == b',' then [] ∷ part ∷ rest else (c ∷ part) ∷ rest
]

-- A set of kinds, which holds no other names than the three.
pub record KindFlags : Type 0 where
  pub direct : Bool
  pub broadcast : Bool
  pub topic : Bool

abbrev pub all_kinds : KindFlags
all_kinds = record { direct = true; broadcast = true; topic = true }

abbrev pub no_kinds : KindFlags
no_kinds = record { direct = false; broadcast = false; topic = false }

-- An empty name is skipped; without a result the name is unknown.
unfoldable pub put_kind : Text → KindFlags → Option KindFlags
put_kind k set =
    if is_empty k
    then some set
    else if same k kind_direct
    then some (record set { direct = true })
    else if same k kind_broadcast
    then some (record set { broadcast = true })
    else if same k kind_topic
    then some (record set { topic = true })
    else none

-- The names of --kind are put into the set one by one; the first that is unknown ends the loop.
unfoldable pub add_kinds : List Text → KindFlags → Option KindFlags
unfolding put_kind
add_kinds [] set = some set
add_kinds (part ∷ parts) set =
    let add_rest = add_kinds parts in
    elim (put_kind (trim_space part) set) [ none ↦ none | some put ↦ add_rest put ]

-- No list stands for all kinds.
unfoldable pub listed_kinds : KindFlags → List Text
listed_kinds set =
    if set.direct && set.broadcast && set.topic
    then []
    else (if set.direct then kind_direct ∷ [] else [])
      ++ (if set.broadcast then kind_broadcast ∷ [] else [])
      ++ (if set.topic then kind_topic ∷ [] else [])

unfoldable pub resolve_kinds : Text → Bool → Option (List Text)
unfolding split_commas add_kinds listed_kinds
resolve_kinds kind no_broadcast =
    elim (if is_empty kind then some all_kinds else add_kinds (split_commas kind) no_kinds) [
      | none ↦ none
      | some set ↦
          some (listed_kinds (if no_broadcast then record set { broadcast = false } else set))
    ]
