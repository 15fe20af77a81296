-- ===== src/Owners/Guard.antt =====
-- The guard against acting under another live session's name.
use mess.Base.{Option, ℕ, Text, ◌≡◌, ◌≢◌, true, false, arith, some, [], find, none}
use mess.Mentions.{is_user_handle}
use mess.State.{Owner, Broker, Env}
use mess.Presence.{alive}
use mess.Owners.{
  ownership_msg, foreign_live_owner, register_owned, claim_identity, rename, join_room,
}

-- The session that a name belongs to.
abbrev pub session_in : Option Owner → Option Text
session_in none = none
session_in (some o) = some o.session

abbrev pub session_of : Text → Broker → Option Text
session_of name b = session_in (find name b.owners)

module _ (env : Env) (name session : Text) (pid : ℕ) (b : Broker) (cur : Owner) where
  -- While another session owns a name and looks alive, a session with an id of its own can
  -- neither register the name, nor act under it, nor rename an agent to it, nor move into it from
  -- another room, unless it forces this: the call is refused and the broker stays as it was.
  pub takeover_refused :
      (old from : Text)
      → find name b.owners ≡ some cur
      → cur.session ≢ []
      → session ≢ []
      → cur.session ≢ session
      → alive env name b ≡ true
      → name ≢ []
      → is_user_handle env.logins name ≡ false
      → old ≢ name
      → (register_owned env name session pid false b ≡ (b, some (ownership_msg name)))
        × (claim_identity env name session pid b ≡ (b, some (ownership_msg name)))
        × (rename env old name session pid false b ≡ (b, some (ownership_msg name)))
        × (join_room env from name session pid false b ≡ (b, some (ownership_msg name)))
  unfolding register_owned claim_identity rename join_room foreign_live_owner
  takeover_refused old from e h1 h2 h3 live h4 h5 h6 = ground arith
