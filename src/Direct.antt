-- ===== src/Direct.antt =====
-- broker.go: direct messages and broadcasts.
pub mod Delivery
use mess.Base.{
  ℕ, suc, ◌+◌, Text, Bool, true, false, ◌&&◌, ◌||◌, not, List, [], ◌∷◌, ◌++◌, Option, none, some,
  Map, find, put, delete, or_zero, is_empty, same, if◌then◌else◌, contains, add,
}
use mess.Rooms.{bare, room_of}
use mess.Mentions.{mentions_in}
use mess.Wire.{Message, Attachment, blank, with_attachment, kind_direct, kind_broadcast}
use mess.State.{Agent, Broker, Env}
use mess.Core.{next_id, touch, deliver, deliver_to, changed}

unfoldable pub track_participant : Text → Text → Broker → Broker
track_participant thread key b = record b {
  thread_participants =
      put thread (add key (or_zero [] (find thread b.thread_participants))) b.thread_participants;
}

-- `if threadID != "" { trackThreadParticipantLocked }`
unfoldable pub track_if_threaded : Text → Text → Broker → Broker
unfolding track_participant
track_if_threaded thread key b = if is_empty thread then b else track_participant thread key b

-- What `send` is asked to carry besides the body.
pub record Extras : Type 0 where
  pub thread_id : Text
  pub ack : Bool
  pub attach : Option Attachment
  pub is_ask : Bool
  pub invite : Text

abbrev pub plain : Extras
plain = record { thread_id = []; ack = false; attach = none; is_ask = false; invite = [] }

unfoldable pub direct_message : ℕ → Text → Text → Text → Text → Extras → Message
unfolding with_attachment
direct_message now id from to body x = with_attachment x.attach (record blank {
  id = id;
  from = bare from;
  to = bare to;
  kind = kind_direct;
  body = body;
  time = now;
  ack_requested = x.ack;
  thread_id = x.thread_id;
  ask = x.is_ask;
  invite = x.invite;
})

-- The channel of a read receipt, if one was asked for.
unfoldable pub open_ack : Bool → Text → Broker → Broker × Option ℕ
open_ack false id b = (b, none)
open_ack true id b = (
  record b { pending_acks = put id b.next_chan b.pending_acks; next_chan = b.next_chan + 1 },
  some b.next_chan,
)

-- Without a recipient there is no result, and the broker stays as it was.
unfoldable pub send :
    Env → Text → Text → Text → Extras → Broker → Option (Broker × Message × Option ℕ)
unfolding next_id touch changed
send env from to body x b =
    let (b1, id) = next_id b in
    let m = direct_message env.now id from to body x in
    let b2 = track_if_threaded x.thread_id from (touch env from b1) in
    let (b3, ch) = open_ack x.ack id (deliver_to to m b2) in
    if is_empty to then none else some (changed b3, m, ch)

unfoldable pub cancel_ack : Text → Broker → Broker
cancel_ack id b = record b { pending_acks = delete id b.pending_acks }

module _ (from room : Text) (host_wide : Bool) where
  -- Whether a broadcast reaches the agent with this key.
  unfoldable pub receives : Text → Bool
  receives key = not (same key from) && (host_wide || same (room_of key) room)

  module _ (m : Message) where
    -- A mention makes the named agent's own copy loud.
    unfoldable pub copy_for : Text → Message
    copy_for key = record m { loud = m.loud || contains (bare key) (mentions_in m.body) }

    unfoldable pub broadcast_agents : Map Agent → Map Agent
    unfolding receives copy_for deliver
    broadcast_agents [] = []
    broadcast_agents ((key, a) ∷ rest) =
        (key, if receives key then deliver (copy_for key) a else a) ∷ broadcast_agents rest

  unfoldable pub signalled : Map Agent → List ℕ
  unfolding receives
  signalled [] = []
  signalled ((key, a) ∷ rest) = (if receives key then a.waiters else []) ++ signalled rest

  unfoldable pub reached : Map Agent → ℕ
  unfolding receives
  reached [] = 0
  reached ((key, a) ∷ rest) = (if receives key then 1 else 0) + reached rest

unfoldable pub broadcast : Env → Text → Text → Text → Bool → Bool → Broker → Broker × Message × ℕ
unfolding next_id touch changed broadcast_agents signalled reached
broadcast env from room body loud host_wide b =
    let (b1, id) = next_id b in
    let m : Message = record blank {
      id = id;
      from = bare from;
      kind = kind_broadcast;
      body = body;
      time = env.now;
      loud = loud;
    } in
    let b2 = touch env from b1 in
    (
      changed (record b2 {
        agents = broadcast_agents from room host_wide m b2.agents;
        fired = signalled from room host_wide b2.agents ++ b2.fired;
      }),
      m,
      reached from room host_wide b2.agents,
    )
