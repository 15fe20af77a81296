-- ===== src/Listing.antt =====
-- broker.go: the roster that `ps` prints.
pub mod Rooms
use mess.Base.{
  ℕ, Text, codes, Bool, true, false, ◌&&◌, ◌||◌, not, List, [], ◌∷◌, ◌++◌, map, Option, none, some,
  Map, find, or_zero, same, ltb, if◌then◌else◌, length, select, sort_by,
}
use mess.Rooms.{bare, display_name, room_then_name_less, split_topic_key, text_lt}
use mess.Mentions.{is_user_handle}
use mess.Wire.{Message}
use mess.State.{Agent, Owner, Bridge, Direction, both, a_to_b, b_to_a, WarnInfo, Broker, Env}
use mess.Core.{other_side}
use mess.Presence.{alive, working, is_listening}
use mess.Snapshot.{direction_string}

pub record AgentInfo : Type 0 where
  pub name : Text
  pub room : Text
  pub pending : ℕ
  pub topics : List Text
  pub listening : Bool
  pub working : Bool
  pub online : Bool
  pub state : Text
  pub warning : Text
  pub oldest : ℕ
  pub session_pid : ℕ

pub record TopicInfo : Type 0 where
  pub name : Text
  pub room : Text
  pub subscribers : List Text
  pub bridged : List Text

-- The direction as it reads from the far end.
unfoldable pub flipped : Direction → Text
flipped both = direction_string both
flipped a_to_b = codes "in"
flipped b_to_a = codes "out"

unfoldable pub describe_from : Text → Bridge → Text
unfolding flipped
describe_from key br =
    let (room, topic) = split_topic_key (other_side br key).0 in
    let dir = if same key br.b then flipped br.dir else direction_string br.dir in
    display_name room (b'#' ∷ topic) ++ codes " (" ++ dir ++ codes ")"

-- The time of the message that has waited longest, 0 if there is none.
unfoldable pub oldest_time : List Message → ℕ
oldest_time [] = 0
oldest_time (m ∷ ms) = m.time

unfoldable pub warning_at : ℕ → Option WarnInfo → Text
warning_at now none = []
warning_at now (some w) = if ltb now w.until then w.text else []

unfoldable pub pid_of : Option Owner → ℕ
pid_of none = 0
pid_of (some o) = o.pid

unfoldable pub agent_info : Env → Broker → Text × Agent → AgentInfo
unfolding oldest_time warning_at pid_of
agent_info env b (key, a) = record {
  name = a.name;
  room = a.room;
  pending = length a.inbox;
  topics = sort_by text_lt a.topics;
  listening = is_listening env key b;
  working = working env key b;
  online = alive env key b;
  state = a.state;
  warning = warning_at env.now (find key b.warnings);
  oldest = oldest_time a.inbox;
  session_pid = pid_of (find key b.owners);
}

unfoldable pub topic_info : Broker → Text × List Text → TopicInfo
unfolding describe_from
topic_info b (tk, subs) = record {
  name = (split_topic_key tk).1;
  room = (split_topic_key tk).0;
  subscribers = sort_by text_lt (map (λ key. bare key) subs);
  bridged =
      sort_by text_lt (map (λ br. describe_from tk br) (or_zero [] (find tk b.bridges_by_topic)));
}

unfoldable pub shows_agent : Env → Text → Bool → Text × Agent → Bool
shows_agent env room all e = all || same e.1.room room || is_user_handle env.logins e.1.name

unfoldable pub shows_topic : Text → Bool → Text × List Text → Bool
shows_topic room all e = all || same (split_topic_key e.0).0 room

unfoldable pub ps : Env → Text → Bool → Broker → List AgentInfo × List TopicInfo
unfolding agent_info topic_info shows_agent shows_topic
ps env room all b = (
  sort_by (λ (x y : AgentInfo). room_then_name_less x.room x.name y.room y.name)
      (map (agent_info env b) (select (shows_agent env room all) b.agents)),
  sort_by (λ (x y : TopicInfo). room_then_name_less x.room x.name y.room y.name)
      (map (topic_info b) (select (shows_topic room all) b.topics)),
)
