-- ===== src/Core.antt =====
-- broker.go: the helpers that every operation of the broker is made of.
pub mod Frame
use mess.Base.{
  ℕ, suc, ◌+◌, ◌-◌, Text, codes, Bool, true, false, ◌&&◌, ◌||◌, not, List, [], ◌∷◌, ◌++◌, Option,
  none, some, Map, find, put, delete, or_zero, is_some, is_empty, same, ltb, leb, ◌==◌,
  if◌then◌else◌, length, last_n,
}
use mess.Rooms.{bare, room_of}
use mess.Ids.{msg_id}
use mess.Wire.{Message}
use mess.State.{Agent, Broker, Bridge, Direction, both, a_to_b, b_to_a, Env}
use mess.Snapshot.{snapshot}

abbrev pub max_history : ℕ
max_history = 50

unfoldable pub new_broker : Broker
new_broker = record {
  agents = [];
  topics = [];
  seq = 0;
  pending_acks = [];
  listeners = [];
  busy_until = [];
  last_seen = [];
  owners = [];
  invites = [];
  asks = [];
  warnings = [];
  evicts = [];
  bridges = [];
  bridges_by_topic = [];
  thread_participants = [];
  topic_history = [];
  next_chan = 0;
  fired = [];
  closed = [];
  saved = none;
}

unfoldable pub new_agent : Text → Agent
new_agent key = record {
  name = bare key;
  room = room_of key;
  inbox = [];
  history = [];
  topics = [];
  state = [];
  waiters = [];
}

-- The agent state that `ensure` returns.
unfoldable pub agent_at : Text → Broker → Agent
unfolding new_agent
agent_at key b = or_zero (new_agent key) (find key b.agents)

unfoldable pub ensure : Text → Broker → Broker
unfolding agent_at
ensure key b = record b {
  agents = if is_some (find key b.agents) then b.agents else put key (new_agent key) b.agents;
}

-- `ensure`, then a change of the state that it returned.
unfoldable pub update_agent : Text → (Agent → Agent) → Broker → Broker
unfolding agent_at
update_agent key f b = record b { agents = put key (f (agent_at key b)) b.agents }

-- An empty name is ignored.
unfoldable pub touch : Env → Text → Broker → Broker
touch env name b = record b {
  last_seen = if is_empty name then b.last_seen else put name env.now b.last_seen;
}

unfoldable pub changed : Broker → Broker
changed b = record b { saved = some (snapshot b) }

-- The counter after `nextID`, and the id that it returned.
unfoldable pub next_id : Broker → Broker × Text
next_id b = (record b { seq = b.seq + 1 }, msg_id (b.seq + 1))

-- The message at the end of the inbox; the waiters are signalled, then dropped.
unfoldable pub deliver : Message → Agent → Agent
deliver m a = record a { inbox = a.inbox ++ m ∷ []; waiters = [] }

-- No waiter is signalled.
unfoldable pub deliver_quiet : Message → Agent → Agent
deliver_quiet m a = record a { inbox = a.inbox ++ record m { quiet = true } ∷ [] }

-- `b.ensure(key).deliver(m)`.
unfoldable pub deliver_to : Text → Message → Broker → Broker
unfolding deliver update_agent
deliver_to key m b = record (update_agent key (deliver m) b) {
  fired = (agent_at key b).waiters ++ b.fired;
}

unfoldable pub deliver_quiet_to : Text → Message → Broker → Broker
unfolding deliver_quiet update_agent
deliver_quiet_to key m b = update_agent key (deliver_quiet m) b

unfoldable pub evict_waiters : Text → Broker → Broker
evict_waiters name b = record b {
  evicts = delete name b.evicts;
  closed = or_zero [] (find name b.evicts) ++ b.closed;
}

unfoldable pub clear_warn : Text → Broker → Broker
clear_warn name b = record b { warnings = delete name b.warnings }

-- A bridge with no expiry time never expires.
unfoldable pub expired : ℕ → Bridge → Bool
expired now br = not (br.expires_at == 0) && ltb br.expires_at now

-- The far side, and whether the direction lets a message through from here.
unfoldable pub other_side : Bridge → Text → Text × Bool
other_side br key =
    if same key br.a
    then (br.b, elim br.dir [ both ↦ true | a_to_b ↦ true | b_to_a ↦ false ])
    else if same key br.b
    then (br.a, elim br.dir [ both ↦ true | a_to_b ↦ false | b_to_a ↦ true ])
    else ([], false)
