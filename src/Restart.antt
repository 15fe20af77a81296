-- ===== src/Restart.antt =====
-- persist.go: load, which makes the broker's state from a snapshot. A snapshot's slices become maps
-- and sets entry by entry, in their order; 0 is a missing time.
pub mod Sorted
pub mod RoundTrip
use mess.Base.{
  ℕ, Text, codes, Bool, true, false, List, [], ◌∷◌, ◌++◌, Option, none, some, Map, find, put,
  or_zero, is_empty, same, if◌then◌else◌, ◌==◌, add,
}
use mess.Rooms.{agent_key, topic_key}
use mess.Wire.{Message}
use mess.State.{
  Agent, Owner, Bridge, Direction, both, a_to_b, b_to_a, AgentSnap, TopicSnap, BridgeSnap, Snapshot,
  Broker, Env,
}
use mess.Core.{agent_at, update_agent}
use mess.Owners.{add_topics}
use mess.Bridges.{index_under}

unfoldable pub direction_of : Text → Direction
direction_of s =
    if same s (codes "out") then a_to_b else if same s (codes "in") then b_to_a else both

-- The agent that a snapshot's entry is read into.
unfoldable pub restored : AgentSnap → Agent → Agent
restored s a = record a { inbox = s.inbox; state = s.state; topics = add_topics s.topics a.topics }

unfoldable pub load_agent : Env → AgentSnap → Broker → Broker
unfolding restored
load_agent env s b =
    let key = agent_key s.room s.name in
    let b1 = update_agent key (restored s) b in
    let owner : Owner = record { session = s.session; pid = 0; comm = [] } in
    record b1 {
      owners = if s.owned then put key owner b1.owners else b1.owners;
      last_seen = put key (if s.last_seen == 0 then env.now else s.last_seen) b1.last_seen;
    }

unfoldable pub load_agents : Env → List AgentSnap → Broker → Broker
unfolding load_agent
load_agents env [] b = b
load_agents env (s ∷ ss) b = load_agents env ss (load_agent env s b)

unfoldable pub subscriber_set : Text → List Text → List Text → List Text
subscriber_set room [] subs = subs
subscriber_set room (n ∷ ns) subs = subscriber_set room ns (add (agent_key room n) subs)

none_listed : List Text → Bool
none_listed [] = true
none_listed (n ∷ ns) = false

none_logged : List Message → Bool
none_logged [] = true
none_logged (m ∷ ms) = false

unfoldable pub load_topic : TopicSnap → Broker → Broker
unfolding none_listed none_logged subscriber_set
load_topic s b =
    let tk = topic_key s.room s.name in
    record b {
      topics =
          if none_listed s.subscribers
          then b.topics
          else put tk (subscriber_set s.room s.subscribers []) b.topics;
      topic_history =
          if none_logged s.history then b.topic_history else put tk s.history b.topic_history;
    }

unfoldable pub load_topics : List TopicSnap → Broker → Broker
unfolding load_topic
load_topics [] b = b
load_topics (s ∷ ss) b = load_topics ss (load_topic s b)

unfoldable pub restored_bridge : BridgeSnap → Bridge
unfolding direction_of
restored_bridge s = record {
  id = s.id;
  a = topic_key s.a_room s.a_topic;
  b = topic_key s.b_room s.b_topic;
  a_room = s.a_room;
  a_topic = s.a_topic;
  b_room = s.b_room;
  b_topic = s.b_topic;
  dir = direction_of s.direction;
  creator = s.creator;
  created_at = s.created_at;
  expires_at = s.expires_at;
}

unfoldable pub load_bridge : BridgeSnap → Broker → Broker
unfolding restored_bridge
load_bridge s b =
    let br = restored_bridge s in
    record b {
      bridges = put br.id br b.bridges;
      bridges_by_topic = index_under br.b br (index_under br.a br b.bridges_by_topic);
    }

unfoldable pub load_bridges : List BridgeSnap → Broker → Broker
unfolding load_bridge
load_bridges [] b = b
load_bridges (s ∷ ss) b = load_bridges ss (load_bridge s b)

-- The marks that a snapshot does not hold stay as they were.
unfoldable pub load : Env → Snapshot → Broker → Broker
unfolding load_agents load_topics load_bridges
load env s b = load_bridges s.bridges (
    load_topics s.topics (
      load_agents env s.agents (record b {
        seq = s.seq;
        agents = [];
        topics = [];
        last_seen = [];
        bridges = [];
        bridges_by_topic = [];
        topic_history = [];
        owners = [];
      })))
