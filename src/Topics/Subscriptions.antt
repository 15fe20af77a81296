-- ===== src/Topics/Subscriptions.antt =====
-- Joining and leaving a topic.
use mess.Base.{
  ◌≡◌, refl, ◌∙◌, sym, ap, same→eq, true, false, ◌&&◌, ◌||◌, not, List, [], ◌∷◌, arith,
  if◌then◌else◌, Bool-cases, Option-cases, inl, inr, Text, same, contains, contains-add,
  contains-remove, add, remove, or_zero, none, find, find-put, find-delete,
}
use mess.Rooms.{bare}
use mess.State.{Broker, Env}
use mess.Core.{agent_at, new_agent, touch, changed, update_agent}
use mess.Core.Frame.{agent_at-update_agent}
use mess.Topics.{subscribe, unsubscribe, is_subscribed, no_names}

no_names-contains : (k : Text) (s : List Text) → no_names s ≡ true → contains k s ≡ false
unfolding no_names contains
no_names-contains k [] h = refl
no_names-contains k (j ∷ s) h = cc

module _ (env : Env) (name topic : Text) (b : Broker) where
  subscribe-agent :
      (k : Text)
      → agent_at k (subscribe env name topic b) ≡ (
          if same name k
          then record (agent_at name b) { topics = add (bare topic) (agent_at name b).topics }
          else agent_at k b)
  unfolding subscribe touch changed agent_at
  subscribe-agent k =
      agent_at-update_agent k name (λ a. record a { topics = add (bare topic) a.topics }) b

  nobody_here :
      find name b.agents ≡ none
      → agent_at name b ≡ record (new_agent name) { topics = remove (bare topic) [] }
  unfolding agent_at new_agent remove
  nobody_here e = rw e refl

  nobody :
      (k : Text)
      → find name b.agents ≡ none
      → agent_at k b ≡ (
          if same name k
          then record (new_agent name) { topics = remove (bare topic) [] }
          else agent_at k b)
  nobody k e = elim (Bool-cases (same name k)) [
    | inl s ↦ rw s (ap (λ j. agent_at j b) (sym (same→eq name k s)) ∙ nobody_here e)
    | inr s ↦ rw s refl
  ]

  unsubscribe-agent :
      (k : Text)
      → agent_at k (unsubscribe env name topic b) ≡ (
          if same name k
          then record (agent_at name b) { topics = remove (bare topic) (agent_at name b).topics }
          else agent_at k b)
  unfolding unsubscribe touch changed agent_at
  unsubscribe-agent k = elim (Option-cases (find name b.agents)) [
    | inl e ↦ rw (unsubscribe, e) (nobody k e)
    | inr (a, e) ↦
        rw (unsubscribe, e)
          (ground (
            arith,
            e,
            find-put name k (record a { topics = remove (bare topic) a.topics }) b.agents,
          ))
  ]

-- Joining a topic adds the one agent to the one topic, leaving it takes the agent out of it, and
-- neither changes who else follows what, nor any inbox; the agent's own list of topics follows suit.
pub subscribe_lem :
    (env : Env) (name topic k tk : Text) (b : Broker)
    → (is_subscribed k tk (subscribe env name topic b)
        ≡ is_subscribed k tk b || same name k && same topic tk)
      × (is_subscribed k tk (unsubscribe env name topic b)
          ≡ is_subscribed k tk b && not (same name k && same topic tk))
      × (contains (bare topic) (agent_at name (subscribe env name topic b)).topics ≡ true)
      × (contains (bare topic) (agent_at name (unsubscribe env name topic b)).topics ≡ false)
      × ((agent_at k (subscribe env name topic b)).inbox ≡ (agent_at k b).inbox)
      × ((agent_at k (unsubscribe env name topic b)).inbox ≡ (agent_at k b).inbox)
unfolding is_subscribed
subscribe_lem env name topic k tk b =
    let subs = or_zero [] (find topic b.topics) in
    (
      unfold subscribe touch changed update_agent in
          ground (arith, find-put topic tk (add name subs) b.topics, contains-add name k subs),
      unfold unsubscribe touch changed in
          ground (
            arith,
            find-put topic tk (remove name subs) b.topics,
            find-delete topic tk b.topics,
            contains-remove name k subs,
            no_names-contains k (remove name subs),
          ),
      ground (
        arith,
        subscribe-agent env name topic b name,
        contains-add (bare topic) (bare topic) (agent_at name b).topics,
      ),
      ground (
        arith,
        unsubscribe-agent env name topic b name,
        contains-remove (bare topic) (bare topic) (agent_at name b).topics,
      ),
      ground (arith, subscribe-agent env name topic b k),
      ground (arith, unsubscribe-agent env name topic b k),
    )
