-- ===== src/Examples/People.antt =====
-- Names, sessions and renames.
use mess.Base.{
  add_int, pos, codes, ◌≡◌, refl, true, false, some, none, [], ◌∷◌, ◌++◌, text_discrete, find, has,
  contains,
}
use mess.State.{Owner, Env, Agent}
use mess.Core.{agent_at}
use mess.Mentions.{is_user_handle, user_handles}
use mess.Presence.{alive, end_session, watch_evict, is_busy, session_dead, is_listening}
use mess.Presence.Liveness.{end_session_lem}
use mess.Owners.{
  register_owned, claim_identity, rename, join_room, ownership_msg, foreign_live_owner,
}
use mess.Owners.Guard.{takeover_refused}
use mess.Owners.Moves.{rename_moves, MovedAgents, MovedTopics, renamed, taken_over}
use mess.Sweeps.{cleanup, prunable, unseen, undrained, too_old}
use mess.Sweeps.Kept.{cleanup_lem}
use mess.Examples.Scene.{alice, bob, carol, news, day, town, member, letter, unlike}

abbrev alice_owner : Owner
alice_owner = record { session = codes "s1"; pid = 7; comm = codes "node" }

alice-alive : alive day alice town ≡ true
unfolding alive session_dead is_listening is_busy find text_discrete
alice-alive = refl

alice-agent : is_user_handle day.logins alice ≡ false
unfolding is_user_handle user_handles text_discrete contains
alice-agent = refl

alice-owned : find alice town.owners ≡ some alice_owner
unfolding find text_discrete
alice-owned = refl

takeover_refused_example :
    (register_owned day alice (codes "s2") 9 false town ≡ (town, some (ownership_msg alice)))
    × (claim_identity day alice (codes "s2") 9 town ≡ (town, some (ownership_msg alice)))
    × (rename day bob alice (codes "s2") 9 false town ≡ (town, some (ownership_msg alice)))
    × (join_room day bob alice (codes "s2") 9 false town ≡ (town, some (ownership_msg alice)))
unfolding text_discrete
takeover_refused_example =
    takeover_refused day alice (codes "s2") 9 town alice_owner bob bob alice-owned
      (unlike (codes "s1") [] refl) (unlike (codes "s2") [] refl)
      (unlike (codes "s1") (codes "s2") refl) alice-alive (unlike alice [] refl) alice-agent
      (unlike bob alice refl)

abbrev bob_agent : Agent
bob_agent = member bob (letter ∷ []) (news ∷ []) (3 ∷ [])

bob-known : find bob town.agents ≡ some bob_agent
unfolding find text_discrete
bob-known = refl

carol-free : foreign_live_owner day carol (codes "s2") town ≡ false
unfolding foreign_live_owner find text_discrete
carol-free = refl

rename_moves_example :
    MovedAgents bob carol town (renamed day bob carol (codes "s2") 9 false town)
    × MovedTopics bob carol (news ∷ []) town (renamed day bob carol (codes "s2") 9 false town)
    × ((taken_over bob carol town).inbox ≡ (agent_at carol town).inbox ++ letter ∷ [])
    × (find carol (renamed day bob carol (codes "s2") 9 false town).owners
        ≡ some (record { session = codes "s2"; pid = 9; comm = [] }))
unfolding text_discrete
rename_moves_example =
    rename_moves day bob carol (codes "s2") 9 false town bob_agent bob-known (unlike bob carol refl)
      (unlike carol [] refl) carol-free

-- The same town after the process of alice's session has ended and its number is another's.
abbrev evening : Env
evening = record day { probe_comm = λ pid. codes "bash" }

end_session_lem_example : has 4 (end_session day alice (watch_evict alice town).0).closed ≡ true
unfolding watch_evict
end_session_lem_example = (end_session_lem day alice town).0

cleanup_lem_example : find bob (cleanup day (pos 500) false town).0.agents ≡ none
unfolding add_int text_discrete find contains prunable alive session_dead is_listening is_busy
    is_user_handle user_handles unseen undrained too_old
cleanup_lem_example = (cleanup_lem day (pos 500) town (refl, (refl, (refl, tt))) (refl, tt)).0 bob
