-- ===== src/Dispatch/Own.antt =====
-- Which calls of the broker a request may come to, and in whose name.
use mess.Runs.Reaches.{AllCalls}
use mess.State.{Env}
use mess.Rooms.{agent_key}
use mess.Base.{inr, [], ◌∷◌, List, false, ◌⊎◌, ◌≡◌, Bool, Text}
use mess.Runs.{Call}
use mess.Requests.{Request, self_of, who_of, to_of}
use mess.Handlers.{Host}

-- What a request says: the key of its sender in its own room and in the room that is addressed, the
-- key of whom it is sent to, the key that moves into a room, and some of its fields.
pub record Names : Type 0 where
  pub self : Text
  pub who : Text
  pub to : Text
  pub mover : Text
  pub room : Text
  pub body : Text
  pub thread : Text
  pub bridge : Text
  pub dry_run : Bool

abbrev pub names_of : Host → Request → Names
names_of host req = record {
  self = self_of req;
  who = who_of req;
  to = to_of host.env.logins req;
  mover = agent_key req.from_room req.as_name;
  room = req.room;
  body = req.body;
  thread = req.thread_id;
  bridge = req.bridge_id;
  dry_run = req.peek;
}

-- Whether a call is one that this request may come to: in the name of its sender, and with what the
-- request says.
abbrev pub Own : Names → Call → Type 0
Own n (Call.registers name) = ⊥
Own n (Call.registers_owned name session pid force) = name ≡ n.who
Own n (Call.claims name session pid) = name ≡ n.self
Own n (Call.renames old new session pid force) = (old ≡ n.who) × (new ≡ n.to)
Own n (Call.joins_room from who session pid force) =
    ((from ≡ n.mover) × (who ≡ n.who)) ⊎ (from ≡ n.self)
Own n (Call.removes name) = (name ≡ n.who) ⊎ (name ≡ n.to)
Own n (Call.sends from to body x) = (from ≡ n.self) × (to ≡ n.to) × (body ≡ n.body)
Own n (Call.cancels_ack id) = Unit
Own n (Call.broadcasts from room body loud host_wide) =
    (from ≡ n.self) × (room ≡ n.room) × (body ≡ n.body)
Own n (Call.publishes from topic body thread attach) = (from ≡ n.self) × (body ≡ n.body)
Own n (Call.subscribes name topic) = (name ≡ n.who) ⊎ (name ≡ n.self)
Own n (Call.unsubscribes name topic) = name ≡ n.who
Own n (Call.reads name peek max p) = name ≡ n.who
Own n (Call.reads_if_idle name max kinds) = name ≡ n.who
Own n (Call.reads_quietly name max) = name ≡ n.who
Own n (Call.reads_answers name token peek max) = name ≡ n.who
Own n (Call.waits name p) = name ≡ n.who
Own n (Call.waits_answer name token) = name ≡ n.who
Own n (Call.listens name) = name ≡ n.who
Own n (Call.stops_listening name) = name ≡ n.who
Own n (Call.sets_busy name dur) = name ≡ n.who
Own n (Call.clears_busy name) = name ≡ n.who
Own n (Call.ends_session name) = name ≡ n.who
Own n (Call.sets_warn name text ttl) = (name ≡ n.who) × (text ≡ n.body)
Own n (Call.sets_state name state) = (name ≡ n.who) × (state ≡ n.body)
Own n (Call.watches name) = name ≡ n.who
Own n (Call.unwatches name ch) = name ≡ n.who
Own n (Call.asks from to body) = (from ≡ n.who) × (body ≡ n.body)
Own n (Call.judges m) = Unit
Own n (Call.invites from to topic room body) = (from ≡ n.self) × (to ≡ n.to) × (body ≡ n.body)
Own n (Call.declines who token reason) = (who ≡ n.self) × (token ≡ n.thread)
Own n (Call.clears_invite token) = token ≡ n.thread
Own n (Call.bridges w force) = Unit
Own n (Call.unbridges id) = id ≡ n.bridge
Own n (Call.cleans_up max_age dry_run) = dry_run ≡ n.dry_run
Own n (Call.expires max_age dry_run) = (dry_run ≡ false) × (n.dry_run ≡ false)

-- A call of the request itself, or one of the others' meanwhile.
abbrev pub May : (Call → Type 0) → Host → Request → Call → Type 0
May others host req call = Own (names_of host req) call ⊎ others call

pub others_May :
    (others : Call → Type 0) (host : Host) (req : Request) (calls : List (Env × Call))
    → AllCalls others calls
    → AllCalls (May others host req) calls
others_May others host req [] all = tt
others_May others host req ((env, call) ∷ calls) (p, all) =
    (inr p, others_May others host req calls all)
