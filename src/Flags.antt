-- ===== src/Flags.antt =====
-- main.go: hoistFlags, which brings the flags of a command line before its positionals.
pub mod Hoisted
use mess.Base.{
  ℕ, Text, codes, Bool, true, false, ◌&&◌, ◌||◌, not, List, [], ◌∷◌, ◌++◌, Option, none, some,
  is_empty, ◌==◌, same, contains, if◌then◌else◌,
}
use mess.Rooms.{contains_byte}

-- strings.TrimLeft of "-".
trim_dashes : Text → Text
trim_dashes [] = []
trim_dashes (c ∷ s) = let rest = trim_dashes s in if c == b'-' then rest else c ∷ s

-- What stands before an equals sign, or all of it.
before_equals : Text → Text
before_equals [] = []
before_equals (c ∷ s) = let rest = before_equals s in if c == b'=' then [] else c ∷ rest

unfoldable pub flag_token : Text → Option Text
unfolding trim_dashes before_equals
flag_token [] = none
flag_token (c ∷ []) = none
flag_token (c ∷ d ∷ s) =
    let name = trim_dashes (c ∷ d ∷ s) in
    if not (c == b'-') || is_empty name then none else some (before_equals name)

-- The flags, the positionals, and the positionals before an explicit "--".
pub record Hoist : Type 0 where
  pub flags : List Text
  pub positionals : List Text
  pub scanned : List Text

abbrev pub terminator : Text
terminator = codes "--"

is_known : List Text → Option Text → Bool
is_known names none = false
is_known names (some name) = contains name names

with_flag : Text → Hoist → Hoist
with_flag a h = record h { flags = a ∷ h.flags }

with_positional : Text → Hoist → Hoist
with_positional a h = record h { positionals = a ∷ h.positionals; scanned = a ∷ h.scanned }

module _ (value_flags bool_flags : List Text) where
  -- Whether a token is a flag, and whether its value is the token that follows.
  unfoldable pub is_flag : Text → Bool
  unfolding is_known
  is_flag a = is_known value_flags (flag_token a) || is_known bool_flags (flag_token a)

  unfoldable pub takes_next : Text → Bool
  unfolding is_known
  takes_next a = is_known value_flags (flag_token a) && not (contains_byte b'=' a)

  -- `value` says that the token before this one is a flag that takes it.
  unfoldable pub collect : Bool → List Text → Hoist
  unfolding is_flag takes_next with_flag with_positional
  collect value [] = record { flags = []; positionals = []; scanned = [] }
  collect true (a ∷ args) = with_flag a (collect false args)
  collect false (a ∷ args) =
      let after_flag = with_flag a (collect (takes_next a) args) in
      let after_positional = with_positional a (collect false args) in
      if same a terminator
      then record { flags = []; positionals = args; scanned = [] }
      else if is_flag a
      then after_flag
      else after_positional

  unfoldable pub hoist_flags : List Text → List Text × List Text
  unfolding collect
  hoist_flags args =
      let h = collect false args in (h.flags ++ terminator ∷ h.positionals, h.scanned)
