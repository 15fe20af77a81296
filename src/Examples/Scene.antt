-- ===== src/Examples/Scene.antt =====
-- Three agents in the global room: alice owns her name and is in a turn, bob follows a topic and has
-- mail, and carol listens.
use mess.Base.{
  ℕ, Text, codes, List, [], ◌∷◌, if◌then◌else◌, ◌==◌, ◌≡◌, ◌≢◌, same, true, false, arith, none,
}
use mess.Wire.{Message, blank, kind_direct}
use mess.State.{Agent, Bridge, both, Broker, Env}

abbrev pub alice : Text
alice = codes "alice"

abbrev pub bob : Text
bob = codes "bob"

abbrev pub carol : Text
carol = codes "carol"

abbrev pub news : Text
news = codes "news"

abbrev pub sports : Text
sports = codes "sports"

abbrev pub day : Env
day = record { now = 1000; probe_comm = λ pid. if pid == 7 then codes "node" else []; logins = [] }

abbrev pub letter : Message
letter = record blank {
  id = codes "m1";
  from = alice;
  to = bob;
  kind = kind_direct;
  body = codes "hello";
  time = 400;
  ack_requested = true;
}

abbrev pub member : Text → List Message → List Text → List ℕ → Agent
member name inbox topics waiters = record {
  name = name;
  room = [];
  inbox = inbox;
  history = [];
  topics = topics;
  state = [];
  waiters = waiters;
}

abbrev pub road : Bridge
road = record {
  id = codes "br2";
  a = news;
  b = sports;
  a_room = [];
  a_topic = news;
  b_room = [];
  b_topic = sports;
  dir = both;
  creator = alice;
  created_at = 5;
  expires_at = 0;
}

abbrev pub town : Broker
town = record {
  agents =
      (alice, member alice [] [] [])
      ∷ (bob, member bob (letter ∷ []) (news ∷ []) (3 ∷ []))
      ∷ (carol, member carol [] (sports ∷ []) [])
      ∷ [];
  topics = (news, bob ∷ alice ∷ []) ∷ (sports, carol ∷ []) ∷ [];
  seq = 2;
  pending_acks = (codes "m1", 2) ∷ [];
  listeners = (carol, 1) ∷ [];
  busy_until = (alice, 5000) ∷ [];
  last_seen = [];
  owners = (alice, record { session = codes "s1"; pid = 7; comm = codes "node" }) ∷ [];
  invites = [];
  asks = [];
  warnings = [];
  evicts = [];
  bridges = (codes "br2", road) ∷ [];
  bridges_by_topic = (news, road ∷ []) ∷ (sports, road ∷ []) ∷ [];
  thread_participants = [];
  topic_history = [];
  next_chan = 4;
  fired = [];
  closed = [];
  saved = none;
}

-- Texts that a comparison tells apart are different.
pub unlike : (s t : Text) → same s t ≡ false → s ≢ t
unlike s t h = ground arith
