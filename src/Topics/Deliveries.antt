-- ===== src/Topics/Deliveries.antt =====
-- `pub`: who gets how many copies of a publish, relays included.
use native.Mathlib.Nat.{add_assoc}
use mess.Core.Frame.{agent_at-agents}
use mess.Base.{
  ℕ, ◌+◌, ◌≡◌, ◌≢◌, refl, sym, ap, ap₂, subst, ◌∙◌, false, ◌&&◌, not, List, [], ◌∷◌, arith,
  if◌then◌else◌, Text, same, contains, Option, Distinct, select, length, length-append, or_zero,
  find, All,
}
use mess.Wire.{Message, Attachment}
use mess.State.{Broker, Env}
use mess.Core.{agent_at, next_id, touch, changed}
use mess.Direct.{track_if_threaded}
use mess.Topics.{relay, publish_local, publish, topic_message, max_bridge_hops}
use mess.Topics.Publish.{
  inbox_of, copy, waker, subscribers, publish_local_lem, publish_local-topics,
  publish_local-bridges,
}
use mess.Topics.Linked.{Linked, followed}
use mess.Topics.Relay.{Went, relay-Went}

-- The broker as the publish of a new message finds it.
abbrev pub stamped : Env → Text → Text → Broker → Broker
stamped env from thread b = track_if_threaded thread from (touch env from (next_id b).0)

module _ (env : Env) (from topic body thread : Text) (attach : Option Attachment) (b : Broker) where
  abbrev pub after : Broker × Message × ℕ × ℕ
  after = publish env from topic body thread attach b

  stamped-Fits :
      ((stamped env from thread b).topics ≡ b.topics)
      × ((stamped env from thread b).bridges_by_topic ≡ b.bridges_by_topic)
      × ((stamped env from thread b).agents ≡ b.agents)
  unfolding track_if_threaded next_id touch
  stamped-Fits = ground arith

  abbrev sent : Message
  sent = topic_message env.now (next_id b).1 from topic body thread attach

  abbrev local : Broker
  local = (publish_local topic sent from false (stamped env from thread b)).0

  module _ (sets : (tk : Text) → Distinct (or_zero [] (find tk b.topics))) where
    here : Distinct (subscribers topic (stamped env from thread b))
    here = subst (λ t. Distinct (or_zero [] (find topic t))) (sym stamped-Fits.0) (sets topic)

    local_grown :
        (k : Text)
        → length (inbox_of k local)
          ≡ length (inbox_of k b)
            + (if contains k (subscribers topic b) && not (same k from) then 1 else 0)
    local_grown k =
        let s = stamped env from thread b in
        let yes_ = contains k (subscribers topic s) && not (same k from) in
        let got = if yes_ then copy (waker sent false s) sent k ∷ [] else [] in
        let count : length got ≡ (if yes_ then 1 else 0) = ground arith in
        ap length ((publish_local_lem topic sent from false s here).0 k)
        ∙ length-append (inbox_of k s) got
        ∙ ap₂ ◌+◌ (ap (λ a. length a.inbox) (agent_at-agents k s b stamped-Fits.2)) (
            count
            ∙ ap (λ t. if contains k (or_zero [] (find topic t)) && not (same k from) then 1 else 0)
                stamped-Fits.0)

    went :
        Went env.now b.topics b.bridges_by_topic topic local
          (topic ∷ [])
          (relay env.now max_bridge_hops topic sent (local, topic ∷ []))
    went =
        relay-Went env.now b.topics b.bridges_by_topic sets max_bridge_hops topic sent local
          (topic ∷ [])
          (
            publish_local-topics topic sent from false (stamped env from thread b) ∙ stamped-Fits.0,
            publish_local-bridges topic sent from false (stamped env from thread b)
                ∙ stamped-Fits.1,
          )

  -- Where a publish goes, for subscriber sets that hold each name once: the relay ends, having
  -- gone to some list of topics, all different and none of them the topic itself, each linked to
  -- the topic by a chain of live bridges open in that direction. Every agent gets one copy if it
  -- follows the topic and is not the sender, and one more for each topic of that list that it
  -- follows, so no agent of a topic that no bridge reaches gets anything. The count is that of the
  -- local subscribers other than the sender.
  pub publish_lem :
      ((tk : Text) → Distinct (or_zero [] (find tk b.topics)))
      → (new : List Text) × Distinct (topic ∷ new)
        × All (Linked env.now b.bridges_by_topic topic) new
        × ((k : Text)
            → k ≢ []
            → length (inbox_of k after.0)
              ≡ length (inbox_of k b)
                + ((if contains k (subscribers topic b) && not (same k from) then 1 else 0)
                    + followed b.topics k new))
        × (after.2 ≡ length (select (λ k. not (same k from)) (subscribers topic b)))
  unfolding publish contains
  publish_lem sets =
      let w = went sets in
      (
        w.new,
        subst Distinct w.visited (w.fresh (refl, tt)),
        w.linked,
        λ k h.
            unfold changed agent_at in
            (w.grown k h
              ∙ ap (λ n. n + followed b.topics k w.new) (local_grown sets k)
              ∙ add_assoc (length (inbox_of k b)) _ (followed b.topics k w.new)),
        (publish_local_lem topic sent from false (stamped env from thread b) (here sets)).1
            ∙ ap (λ t. length (select (λ k. not (same k from)) (or_zero [] (find topic t))))
                stamped-Fits.0,
      )
