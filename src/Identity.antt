-- ===== src/Identity.antt =====
-- identity.go: stateKey, which makes a file name of a session's id. A byte of a longer character is
-- dropped like the character.
pub mod Safe
use mess.Base.{
  ℕ, ◌≡◌, refl, Text, codes, Bool, true, false, ◌&&◌, ◌||◌, not, List, [], ◌∷◌, is_empty, ◌==◌,
  take, if◌then◌else◌, leb, length,
}
use mess.Mentions.{is_alnum}

-- [A-Za-z0-9._]
unfoldable pub is_plain : ℕ → Bool
unfolding is_alnum
is_plain c = is_alnum c || c == b'.' || c == b'_'

-- The loop over the id; the flags say that a dash came just before, and that something was written.
unfoldable pub sanitize : Bool → Bool → Text → Text
unfolding is_plain
sanitize prev_dash started [] = []
sanitize prev_dash started (c ∷ s) =
    let after_plain = sanitize false true s in
    let after_dash = sanitize true started s in
    let dropped = sanitize prev_dash started s in
    if is_plain c
    then c ∷ after_plain
    else if c == b'-'
    then (if not prev_dash && started then b'-' ∷ after_dash else after_dash)
    else dropped

-- strings.Trim of "-", on the left and on the right.
unfoldable pub trim_left : Text → Text
trim_left [] = []
trim_left (c ∷ s) = let rest = trim_left s in if c == b'-' then rest else c ∷ s

unfoldable pub trim_right : Text → Text
trim_right [] = []
trim_right (c ∷ s) = let rest = trim_right s in if c == b'-' && is_empty rest then [] else c ∷ rest

abbrev pub max_key : ℕ
max_key = 120

unfoldable pub state_key : Text → Text
unfolding sanitize trim_left trim_right
state_key sid =
    let key = take max_key (trim_right (trim_left (sanitize false false sid))) in
    if is_empty key then codes "anon" else key

key_test : state_key (codes "dsh:--a--b/c-") ≡ codes "dsh-a-bc"
unfolding state_key
key_test = refl

-- A name that means the directory itself is not kept out.
dots_test : state_key (codes "..") ≡ codes ".."
unfolding state_key
dots_test = refl
