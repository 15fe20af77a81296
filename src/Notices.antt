-- ===== src/Notices.antt =====
-- notify.go: userNotice, which says when the human is told of a message; the mention that is named is
-- the first one in the body, where the source takes one out of a map.
use mess.Base.{
  Text, codes, List, [], ◌∷◌, ◌++◌, Option, none, some, is_empty, if◌then◌else◌, contains,
}
use mess.Mentions.{mentions_in, to_lower, user_handles, is_user_handle}

-- The first of the mentions that is a target, which stand in lower case.
unfoldable pub first_target : List Text → List Text → Option Text
first_target targets [] = none
first_target targets (tok ∷ toks) =
    let rest = first_target targets toks in
    if contains (to_lower tok) targets then some tok else rest

unfoldable pub matches_targets : Text → List Text → Option Text
unfolding first_target
matches_targets body targets = first_target targets (mentions_in body)

unfoldable pub user_notice : List Text → Text → Text → Text → Option Text
unfolding matches_targets
user_notice logins from to body =
    let sender = if is_empty from then codes "someone" else from in
    let summary = codes "mess: " ++ sender in
    let mentioned = elim (matches_targets body (user_handles logins)) as (λ _. Option Text) [
      | none ↦ none
      | some h ↦ some (summary ++ codes " mentioned @" ++ h)
    ] in
    if is_user_handle logins to then some (summary ++ codes " messaged you") else mentioned
