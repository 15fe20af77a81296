-- ===== src/Runs/Publishing.antt =====
-- Publishing, with the relay over bridges, keeps the state valid.
use mess.Base.{
  ℕ, suc, zero, Bool, true, false, List, [], ◌∷◌, if◌then◌else◌, Text, same, Option, Bool-cases,
  inl, inr,
}
use mess.Wire.{Message, Attachment}
use mess.State.{Bridge, Broker, Env}
use mess.Core.{changed, next_id, touch, other_side}
use mess.Direct.{track_if_threaded}
use mess.Topics.{
  append_topic_history, deliver_as, publish_to, publish_local, crosses, cross, relay_over, relay,
  publish, relayed, topic_message, max_bridge_hops,
}
use mess.Runs.Tables.{either}
use mess.Runs.Helpers.{
  IsValid, deliver_to-IsValid, deliver_quiet_to-IsValid, track_if_threaded-IsValid,
}

deliver_as-IsValid :
    (w : Bool) (key : Text) (m : Message) (b : Broker) → IsValid b → IsValid (deliver_as w key m b)
unfolding deliver_as
deliver_as-IsValid true key m b v = deliver_to-IsValid key m b v
deliver_as-IsValid false key m b v = deliver_quiet_to-IsValid key m b v

publish_to-IsValid :
    (wake : Text → Bool) (m : Message) (skip : Text) (keys : List Text) (b : Broker)
    → IsValid b
    → IsValid (publish_to wake m skip keys b).0
unfolding publish_to
publish_to-IsValid wake m skip [] b v = v
publish_to-IsValid wake m skip (key ∷ keys) b v =
    let next = if same key skip then b else deliver_as (wake key) key m b in
    publish_to-IsValid wake m skip keys next (
      either IsValid (same key skip) b (deliver_as (wake key) key m b) v
        (deliver_as-IsValid (wake key) key m b v))

publish_local-IsValid :
    (key : Text) (m : Message) (skip : Text) (is_relay : Bool) (b : Broker)
    → IsValid b
    → IsValid (publish_local key m skip is_relay b).0
unfolding publish_local append_topic_history
publish_local-IsValid key m skip is_relay b v = publish_to-IsValid _ m skip _ _ v

module _ (now : ℕ) where
  abbrev Keeps : (Text → Message → Broker × List Text → Broker × List Text) → Type 0
  Keeps go =
      (key : Text) (m : Message) (st : Broker × List Text) → IsValid st.0 → IsValid (go key m st).0

  cross-IsValid :
      (go : Text → Message → Broker × List Text → Broker × List Text)
      → Keeps go
      → (key : Text) (m : Message) (br : Bridge) (b : Broker) (visited : List Text) → IsValid b
      → IsValid (cross now go key m br (b, visited)).0
  unfolding cross
  cross-IsValid go keeps key m br b visited v = elim (Bool-cases (crosses now br key visited)) [
    | inl e ↦ rw e (
        keeps (other_side br key).0 (relayed br key m) _
          (publish_local-IsValid (other_side br key).0 (relayed br key m) [] true b v))
    | inr e ↦ rw e v
  ]

  relay_over-IsValid :
      (go : Text → Message → Broker × List Text → Broker × List Text)
      → Keeps go
      → (key : Text) (m : Message) (brs : List Bridge) (st : Broker × List Text) → IsValid st.0
      → IsValid (relay_over now go key m brs st).0
  unfolding relay_over
  relay_over-IsValid go keeps key m [] st v = v
  relay_over-IsValid go keeps key m (br ∷ brs) (b, visited) v =
      relay_over-IsValid go keeps key m brs (cross now go key m br (b, visited))
        (cross-IsValid go keeps key m br b visited v)

  relay-Keeps : (hops : ℕ) → Keeps (relay now hops)
  unfolding relay
  relay-Keeps zero key m st v = v
  relay-Keeps (suc hops) key m st v =
      relay_over-IsValid (relay now hops) (relay-Keeps hops) key m _ st v

pub publish-IsValid :
    (env : Env) (from topic body thread : Text) (attach : Option Attachment) (b : Broker)
    → IsValid b
    → IsValid (publish env from topic body thread attach b).0
unfolding publish changed
publish-IsValid env from topic body thread attach b v =
    let m = topic_message env.now (next_id b).1 from topic body thread attach in
    let b1 = touch env from (next_id b).0 in
    let b2 = track_if_threaded thread from b1 in
    relay-Keeps env.now max_bridge_hops topic m
      ((publish_local topic m from false b2).0, topic ∷ [])
      (publish_local-IsValid topic m from false b2
        (track_if_threaded-IsValid thread from b1 (unfold touch next_id in v)))
