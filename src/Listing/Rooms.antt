-- ===== src/Listing/Rooms.antt =====
-- What a roster shows of the rooms.
use mathlib.Core.List.{Perm}
use mathlib.Core.List.Perm
use mess.Base.{Text, Bool, ◌||◌, List, same}
use mess.Rooms.{split_topic_key}
use mess.Mentions.{is_user_handle}
use mess.State.{Agent, Env}

-- Whether an agent is of the room, or is the human.
abbrev pub belongs : Env → Text → Text × Agent → Bool
belongs env room e = same e.1.room room || is_user_handle env.logins e.1.name

abbrev pub is_topic_of : Text → Text × List Text → Bool
is_topic_of room e = same (split_topic_key e.0).0 room
