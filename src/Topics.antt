-- ===== src/Topics.antt =====
-- broker.go: topics, publishing, threads, and the relay over bridges.
pub mod Publish
pub mod Linked
pub mod Relay
pub mod Deliveries
pub mod Subscriptions
use mess.Base.{
  ℕ, zero, suc, ◌+◌, Text, Bool, true, false, ◌&&◌, ◌||◌, not, List, [], ◌∷◌, ◌++◌, Option, none,
  some, Map, find, put, delete, or_zero, is_some, is_empty, same, if◌then◌else◌, contains, add,
  remove, last_n,
}
use mess.Rooms.{bare, split_topic_key}
use mess.Mentions.{mentions_in}
use mess.Wire.{Message, Attachment, blank, with_attachment, kind_topic}
use mess.State.{Agent, Bridge, Broker, Env}
use mess.Core.{
  max_history, next_id, touch, update_agent, deliver_to, deliver_quiet_to, changed, expired,
  other_side,
}
use mess.Direct.{track_if_threaded}

no_names : List Text → Bool
no_names [] = true
no_names (k ∷ ks) = false

unfoldable pub append_topic_history : Text → Message → Broker → Broker
append_topic_history key m b =
    let log = last_n max_history (or_zero [] (find key b.topic_history) ++ m ∷ []) in
    record b { topic_history = put key log b.topic_history }

-- Whether a subscriber is woken: it is mentioned or already in the thread, or the message neither
-- is relayed, nor mentions anyone, nor belongs to a thread.
unfoldable pub woken : List Text → List Text → Message → Bool → Text → Bool
unfolding no_names
woken mentions participants m is_relay key =
    let mentioned = contains (bare key) mentions in
    let participant = not (is_empty m.thread_id) && contains key participants in
    if mentioned || participant
    then true
    else if is_relay || not (no_names mentions) || not (is_empty m.thread_id)
    then false
    else true

unfoldable pub deliver_as : Bool → Text → Message → Broker → Broker
deliver_as true key m b = deliver_to key m b
deliver_as false key m b = deliver_quiet_to key m b

-- The loop over the subscribers; the counts are of those delivered to and those woken.
unfoldable pub publish_to : (Text → Bool) → Message → Text → List Text → Broker → Broker × ℕ × ℕ
publish_to wake m skip [] b = (b, 0, 0)
publish_to wake m skip (key ∷ keys) b =
    let skipped = same key skip in
    let (b', delivered, woke) =
      publish_to wake m skip keys (if skipped then b else deliver_as (wake key) key m b) in
    (
      b',
      if skipped then delivered else delivered + 1,
      if not skipped && wake key then woke + 1 else woke,
    )

unfoldable pub publish_local : Text → Message → Text → Bool → Broker → Broker × ℕ × ℕ
publish_local key m skip is_relay b =
    let participants = or_zero [] (find m.thread_id b.thread_participants) in
    publish_to (woken (mentions_in m.body) participants m is_relay) m skip
      (or_zero [] (find key b.topics)) (append_topic_history key m b)

abbrev pub max_bridge_hops : ℕ
max_bridge_hops = 8

-- The copy that crosses a bridge; the true origin is stamped at the first hop.
unfoldable pub relayed : Bridge → Text → Message → Message
relayed br key m =
    let first = is_empty m.origin_topic in
    record m {
      bridge_id = br.id;
      origin_room = if first then (split_topic_key key).0 else m.origin_room;
      origin_topic = if first then (split_topic_key key).1 else m.origin_topic;
    }

module _ (now : ℕ) where
  -- Whether a message at this topic may cross the bridge, by its expiry, direction and what was
  -- visited before.
  unfoldable pub crosses : Bridge → Text → List Text → Bool
  crosses br key visited =
      not (expired now br) && (other_side br key).1 && not (contains (other_side br key).0 visited)

  -- One bridge: publish on the far side, then go on from there.
  unfoldable pub cross :
      (Text → Message → Broker × List Text → Broker × List Text)
      → Text
      → Message
      → Bridge
      → Broker × List Text
      → Broker × List Text
  cross go key m br (b, visited) =
      let other = (other_side br key).0 in
      let rm = relayed br key m in
      if crosses br key visited
      then go other rm ((publish_local other rm [] true b).0, add other visited)
      else (b, visited)

  unfoldable pub relay_over :
      (Text → Message → Broker × List Text → Broker × List Text)
      → Text
      → Message
      → List Bridge
      → Broker × List Text
      → Broker × List Text
  relay_over go key m [] st = st
  relay_over go key m (br ∷ brs) st = relay_over go key m brs (cross go key m br st)

  -- The first argument is the number of hops left, `maxBridgeHops - depth`.
  unfoldable pub relay : ℕ → Text → Message → Broker × List Text → Broker × List Text
  relay zero key m st = st
  relay (suc hops) key m st =
      relay_over (relay hops) key m (or_zero [] (find key (st.0).bridges_by_topic)) st

unfoldable pub topic_message : ℕ → Text → Text → Text → Text → Text → Option Attachment → Message
topic_message now id from topic body thread attach = with_attachment attach (record blank {
  id = id;
  from = bare from;
  topic = bare topic;
  kind = kind_topic;
  body = body;
  time = now;
  thread_id = thread;
})

-- The message, and the counts of the local audience.
unfoldable pub publish :
    Env → Text → Text → Text → Text → Option Attachment → Broker → Broker × Message × ℕ × ℕ
publish env from topic body thread attach b =
    let (b1, id) = next_id b in
    let m = topic_message env.now id from topic body thread attach in
    let b2 = track_if_threaded thread from (touch env from b1) in
    let (b3, delivered, woke) = publish_local topic m from false b2 in
    (changed (relay env.now max_bridge_hops topic m (b3, topic ∷ [])).0, m, delivered, woke)

module _ (env : Env) where
  unfoldable pub subscribe : Text → Text → Broker → Broker
  subscribe name topic b =
      let b1 =
        touch env name
          (update_agent name (λ a. record a { topics = add (bare topic) a.topics }) b) in
      changed
        (record b1 { topics = put topic (add name (or_zero [] (find topic b1.topics))) b1.topics })

  unfoldable pub unsubscribe : Text → Text → Broker → Broker
  unfolding no_names
  unsubscribe name topic b =
      let b1 = touch env name b in
      let subs = remove name (or_zero [] (find topic b1.topics)) in
      changed (record b1 {
        agents = elim (find name b1.agents) [
          | none ↦ b1.agents
          | some a ↦ put name (record a { topics = remove (bare topic) a.topics }) b1.agents
        ];
        topics = if no_names subs then delete topic b1.topics else put topic subs b1.topics;
      })

unfoldable pub is_subscribed : Text → Text → Broker → Bool
is_subscribed name topic b = contains name (or_zero [] (find topic b.topics))
