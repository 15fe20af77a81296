-- ===== src/Topics/Publish.antt =====
-- One publish: who receives it, who is woken, and what is logged.
use mess.Base.{
  ◌≡◌, refl, sym, ap, ◌∙◌, Bool, true, false, ◌&&◌, not, List, [], ◌∷◌, ◌++◌, append_assoc,
  append-nil, arith, if◌then◌else◌, Text, same, contains, Distinct, select, length, or_zero, some,
  find, find-put_self, last_n,
}
use mess.Wire.{Message}
use mess.Mentions.{mentions_in}
use mess.State.{Broker}
use mess.Core.{
  max_history, agent_at, update_agent, deliver, deliver_quiet, deliver_to, deliver_quiet_to,
}
use mess.Core.Frame.{agent_at-update_agent}
use mess.Topics.{append_topic_history, woken, deliver_as, publish_to, publish_local}

abbrev pub inbox_of : Text → Broker → List Message
inbox_of k b = (agent_at k b).inbox

-- A subscriber's copy: flagged quiet unless it wakes.
abbrev pub copy : (Text → Bool) → Message → Text → Message
copy wake m k = if wake k then m else record m { quiet = true }

agent-deliver_as :
    (w : Bool) (k key : Text) (m : Message) (b : Broker)
    → agent_at k (deliver_as w key m b) ≡ (
        if same key k
        then if w then deliver m (agent_at key b) else deliver_quiet m (agent_at key b)
        else agent_at k b)
unfolding deliver_as deliver_to deliver_quiet_to
agent-deliver_as true k key m b = agent_at-update_agent k key (deliver m) b
agent-deliver_as false k key m b = agent_at-update_agent k key (deliver_quiet m) b

inbox-deliver_as :
    (wake : Text → Bool) (k key : Text) (m : Message) (b : Broker)
    → inbox_of k (deliver_as (wake key) key m b)
      ≡ inbox_of k b ++ (if same key k then copy wake m k ∷ [] else [])
unfolding deliver deliver_quiet
inbox-deliver_as wake k key m b =
    ground (arith, agent-deliver_as (wake key) k key m b, append-nil (inbox_of k b))

module _ (wake : Text → Bool) (m : Message) (skip : Text) where
  -- The copies that one key gets, one for each time that it is listed.
  abbrev copies : Text → List Text → List Message
  copies k [] = []
  copies k (key ∷ keys) =
      (if same key skip then [] else if same key k then copy wake m k ∷ [] else []) ++ copies k keys

  copies_absent : (k : Text) (keys : List Text) → contains k keys ≡ false → copies k keys ≡ []
  unfolding contains
  copies_absent k [] h = refl
  copies_absent k (key ∷ keys) h = ground (arith, copies_absent k keys)

  copies_once :
      (k : Text) (keys : List Text)
      → Distinct keys
      → copies k keys ≡ (if contains k keys && not (same k skip) then copy wake m k ∷ [] else [])
  unfolding contains
  copies_once k [] h = refl
  copies_once k (key ∷ keys) (new, rest) =
      ground (arith, copies_once k keys rest, copies_absent k keys)

  publish_to-inbox :
      (k : Text) (keys : List Text) (b : Broker)
      → inbox_of k (publish_to wake m skip keys b).0 ≡ inbox_of k b ++ copies k keys
  unfolding publish_to
  publish_to-inbox k [] b = sym (append-nil _)
  publish_to-inbox k (key ∷ keys) b = ground (
    arith,
    publish_to-inbox k keys (if same key skip then b else deliver_as (wake key) key m b),
    inbox-deliver_as wake k key m b,
    append_assoc (inbox_of k b) (if same key k then copy wake m k ∷ [] else []) (copies k keys),
  )

  publish_to-counts :
      (keys : List Text) (b : Broker)
      → ((publish_to wake m skip keys b).1 ≡ length (select (λ k. not (same k skip)) keys))
        × ((publish_to wake m skip keys b).2
            ≡ length (select (λ k. not (same k skip) && wake k) keys))
  unfolding publish_to select
  publish_to-counts [] b = (refl, refl)
  publish_to-counts (key ∷ keys) b =
      ground
        (arith, publish_to-counts keys (if same key skip then b else deliver_as (wake key) key m b))

  publish_to-topics :
      (keys : List Text) (b : Broker) → (publish_to wake m skip keys b).0.topics ≡ b.topics
  unfolding publish_to deliver_as deliver_to deliver_quiet_to update_agent
  publish_to-topics [] b = refl
  publish_to-topics (key ∷ keys) b =
      ground
        (arith, publish_to-topics keys (if same key skip then b else deliver_as (wake key) key m b))

  publish_to-bridges :
      (keys : List Text) (b : Broker)
      → (publish_to wake m skip keys b).0.bridges_by_topic ≡ b.bridges_by_topic
  unfolding publish_to deliver_as deliver_to deliver_quiet_to update_agent
  publish_to-bridges [] b = refl
  publish_to-bridges (key ∷ keys) b =
      ground (
        arith,
        publish_to-bridges keys (if same key skip then b else deliver_as (wake key) key m b),
      )

  publish_to-history :
      (keys : List Text) (b : Broker)
      → (publish_to wake m skip keys b).0.topic_history ≡ b.topic_history
  unfolding publish_to deliver_as deliver_to deliver_quiet_to update_agent
  publish_to-history [] b = refl
  publish_to-history (key ∷ keys) b =
      ground (
        arith,
        publish_to-history keys (if same key skip then b else deliver_as (wake key) key m b),
      )

abbrev pub subscribers : Text → Broker → List Text
subscribers key b = or_zero [] (find key b.topics)

-- Who a publish to this broker wakes.
abbrev pub waker : Message → Bool → Broker → Text → Bool
waker m is_relay b =
    woken (mentions_in m.body) (or_zero [] (find m.thread_id b.thread_participants)) m is_relay

module _ (key : Text) (m : Message) (skip : Text) (is_relay : Bool) (b : Broker) where
  abbrev pub published : Broker
  published = (publish_local key m skip is_relay b).0

  pub publish_local-topics : published.topics ≡ b.topics
  unfolding publish_local append_topic_history
  publish_local-topics = publish_to-topics (waker m is_relay b) m skip (subscribers key b) _

  pub publish_local-bridges : published.bridges_by_topic ≡ b.bridges_by_topic
  unfolding publish_local append_topic_history
  publish_local-bridges = publish_to-bridges (waker m is_relay b) m skip (subscribers key b) _

  -- A publish reaches each subscriber of the topic other than the skipped one exactly once, at the
  -- end of the inbox, as a copy that is flagged quiet unless it wakes; nobody else's inbox changes.
  -- The counts are the number of subscribers reached and of those among them that are woken, and
  -- the topic's log ends with the message, its last 50 kept.
  pub publish_local_lem :
      Distinct (subscribers key b)
      → ((k : Text)
          → inbox_of k published
            ≡ inbox_of k b
              ++ (if contains k (subscribers key b) && not (same k skip)
                  then copy (waker m is_relay b) m k ∷ []
                  else []))
        × ((publish_local key m skip is_relay b).1
            ≡ length (select (λ k. not (same k skip)) (subscribers key b)))
        × ((publish_local key m skip is_relay b).2
            ≡ length (select (λ k. not (same k skip) && waker m is_relay b k) (subscribers key b)))
        × (find key published.topic_history
            ≡ some (last_n max_history (or_zero [] (find key b.topic_history) ++ m ∷ [])))
  unfolding publish_local append_topic_history agent_at
  publish_local_lem sets = (
    λ k.
        publish_to-inbox (waker m is_relay b) m skip k (subscribers key b)
          (append_topic_history key m b)
        ∙ ap (◌++◌ (inbox_of k b))
            (copies_once (waker m is_relay b) m skip k (subscribers key b) sets),
    (publish_to-counts (waker m is_relay b) m skip (subscribers key b)
        (append_topic_history key m b)).0,
    (publish_to-counts (waker m is_relay b) m skip (subscribers key b)
        (append_topic_history key m b)).1,
    ap (find key) (
          publish_to-history (waker m is_relay b) m skip (subscribers key b)
            (append_topic_history key m b))
        ∙ find-put_self key _ b.topic_history,
  )
