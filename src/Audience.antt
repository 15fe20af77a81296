-- ===== src/Audience.antt =====
-- broker.go: whom a mention does not reach. A set of names is a list.
pub mod Silent
use mess.Base.{
  [], Text, Bool, true, false, ◌||◌, List, map, Map, find, or_zero, same, select, sort_by, keys_of,
}
use mess.Rooms.{bare, room_of, text_lt}
use mess.Mentions.{missing_mentions}
use mess.State.{Broker, Env}

-- The mentions that no subscriber answers to, and the names of the subscribers.
unfoldable pub mentions_not_subscribed : Env → Text → Text → Broker → List Text × List Text
mentions_not_subscribed env topic body b =
    let names = map bare (or_zero [] (find topic b.topics)) in
    (missing_mentions env.logins body names, sort_by text_lt names)

unfoldable pub in_scope : Text → Bool → Text → Bool
in_scope room host_wide key = host_wide || same (room_of key) room

unfoldable pub mentions_not_in_room : Env → Text → Text → Bool → Broker → List Text
unfolding in_scope
mentions_not_in_room env room body host_wide b =
    missing_mentions env.logins body
      (map bare (select (in_scope room host_wide) (keys_of b.agents)))
