-- ===== src/State.antt =====
-- broker.go: the broker's state, and persist.go: the snapshot of it. The exported methods
-- take `b.mu`, nearly all of them for their whole body, so an operation of the model is one step from
-- state to state; SendAsk, Invite and Decline take it more than once, and the model runs their parts
-- one behind the other. A channel is a number: `fired` lists those that hold a token (one token at most, a second send is dropped),
-- `closed` those that were closed. `saved` is what the persistence hook was last given.
use mess.Base.{ℕ, Text, Bool, List, Option, ℤ, Map}
use mess.Wire.{Message}

pub record Agent : Type 0 where
  pub name : Text
  pub room : Text
  pub inbox : List Message
  pub history : List Message
  pub topics : List Text
  pub state : Text
  pub waiters : List ℕ

pub record Owner : Type 0 where
  pub session : Text
  pub pid : ℕ
  pub comm : Text

pub record AskInfo : Type 0 where
  pub asker : Text
  pub askee : Text
  pub seq : ℤ
  pub ambiguous_up_to : ℤ

pub record InviteInfo : Type 0 where
  pub inviter : Text
  pub invitee : Text
  pub room : Text
  pub topic : Text
  pub at : ℕ

pub record WarnInfo : Type 0 where
  pub text : Text
  pub until : ℕ

pub data Direction : Type 0 where
  both a_to_b b_to_a : Direction

pub record Bridge : Type 0 where
  pub id : Text
  pub a : Text
  pub b : Text
  pub a_room : Text
  pub a_topic : Text
  pub b_room : Text
  pub b_topic : Text
  pub dir : Direction
  pub creator : Text
  pub created_at : ℕ
  pub expires_at : ℕ

pub record AgentSnap : Type 0 where
  pub room : Text
  pub name : Text
  pub inbox : List Message
  pub topics : List Text
  pub state : Text
  pub last_seen : ℕ
  pub owned : Bool
  pub session : Text

pub record TopicSnap : Type 0 where
  pub room : Text
  pub name : Text
  pub subscribers : List Text
  pub history : List Message

pub record BridgeSnap : Type 0 where
  pub id : Text
  pub a_room : Text
  pub a_topic : Text
  pub b_room : Text
  pub b_topic : Text
  pub direction : Text
  pub creator : Text
  pub created_at : ℕ
  pub expires_at : ℕ

pub record Snapshot : Type 0 where
  pub seq : ℕ
  pub agents : List AgentSnap
  pub topics : List TopicSnap
  pub bridges : List BridgeSnap

pub record Broker : Type 0 where
  pub agents : Map Agent
  pub topics : Map (List Text)
  pub seq : ℕ
  pub pending_acks : Map ℕ
  pub listeners : Map ℕ
  pub busy_until : Map ℕ
  pub last_seen : Map ℕ
  pub owners : Map Owner
  pub invites : Map InviteInfo
  pub asks : Map AskInfo
  pub warnings : Map WarnInfo
  pub evicts : Map (List ℕ)
  pub bridges : Map Bridge
  pub bridges_by_topic : Map (List Bridge)
  pub thread_participants : Map (List Text)
  pub topic_history : Map (List Message)
  pub next_chan : ℕ
  pub fired : List ℕ
  pub closed : List ℕ
  pub saved : Option Snapshot

-- What a method asks of its surroundings: the clock, read once in each step; the name of a running
-- process, empty if there is none; and the operator's login names.
pub record Env : Type 0 where
  pub now : ℕ
  pub probe_comm : ℕ → Text
  pub logins : List Text
