-- ===== src/Snapshot.antt =====
-- persist.go: `snapshot`, and the direction's name on the wire.
use mathlib.Core.Option
use mess.Base.{Text, codes, List, [], ◌∷◌, map, Map, find, add, or_zero, is_some, sort_by}
use mess.Rooms.{bare, split_topic_key, text_lt, room_then_name_less}
use mess.State.{
  Agent, Owner, Bridge, Direction, both, a_to_b, b_to_a, AgentSnap, TopicSnap, BridgeSnap, Snapshot,
  Broker,
}

unfoldable pub direction_string : Direction → Text
direction_string a_to_b = codes "out"
direction_string b_to_a = codes "in"
direction_string both = codes "both"

abbrev pub keys {ℓ} : {V : Type ℓ} → Map V → List Text
keys = map λ e. e.0

unfoldable pub agent_snap : Broker → Text × Agent → AgentSnap
agent_snap b (key, a) = record {
  room = a.room;
  name = a.name;
  inbox = a.inbox;
  topics = sort_by text_lt a.topics;
  state = a.state;
  last_seen = or_zero 0 (find key b.last_seen);
  owned = is_some (find key b.owners);
  session = or_zero [] (Option.map (λ (o : Owner). o.session) (find key b.owners));
}

unfoldable pub topic_snap : Broker → Text → TopicSnap
topic_snap b tk = record {
  room = (split_topic_key tk).0;
  name = (split_topic_key tk).1;
  subscribers = sort_by text_lt (map (λ key. bare key) (or_zero [] (find tk b.topics)));
  history = or_zero [] (find tk b.topic_history);
}

unfoldable pub bridge_snap : Text × Bridge → BridgeSnap
unfolding direction_string
bridge_snap (id, br) = record {
  id = br.id;
  a_room = br.a_room;
  a_topic = br.a_topic;
  b_room = br.b_room;
  b_topic = br.b_topic;
  direction = direction_string br.dir;
  creator = br.creator;
  created_at = br.created_at;
  expires_at = br.expires_at;
}

add_all : List Text → List Text → List Text
add_all [] s = s
add_all (k ∷ ks) s = add_all ks (add k s)

-- The topics that have subscribers or a log.
unfoldable pub topic_keys : Broker → List Text
unfolding add_all
topic_keys b = add_all (keys b.topic_history) (add_all (keys b.topics) [])

unfoldable pub snapshot : Broker → Snapshot
unfolding agent_snap topic_snap bridge_snap topic_keys
snapshot b = record {
  seq = b.seq;
  agents =
      sort_by (λ (x y : AgentSnap). room_then_name_less x.room x.name y.room y.name)
        (map (agent_snap b) b.agents);
  topics =
      sort_by (λ (x y : TopicSnap). room_then_name_less x.room x.name y.room y.name)
        (map (topic_snap b) (topic_keys b));
  bridges = sort_by (λ (x y : BridgeSnap). text_lt x.id y.id) (map bridge_snap b.bridges);
}
