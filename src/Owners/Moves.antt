-- ===== src/Owners/Moves.antt =====
-- What moves along when an identity changes its key.
use mess.Base.{
  ℕ, Text, ◌≡◌, ◌≢◌, refl, sym, ap, Bool, true, false, ◌&&◌, ◌||◌, not, arith, Option, none, some,
  List, [], ◌∷◌, ◌++◌, map, Map, find, find-put, find-put_self, find-put_ne, find-delete, put,
  or_zero, ◌∙◌, same, contains, contains-add, contains-remove, remove, add, if◌then◌else◌,
}
use mess.Rooms.{room_of, topic_key}
use mess.State.{Agent, Broker, Env}
use mess.Core.{agent_at, update_agent}
use mess.Owners.{
  arrive, foreign_live_owner, rename, migrate, absorb, subscribe_all, unsubscribe_everywhere,
  no_subscribers, forget, remove_agent_locked, source_topics,
}

-- The subscribers of a topic.
abbrev pub subscribers_of : Text → Map (List Text) → List Text
subscribers_of tk m = or_zero [] (find tk m)

abbrev without : Text → Option (List Text) → Option (List Text)
without name none = none
without name (some s) = if no_subscribers (remove name s) then none else some (remove name s)

find-unsubscribe_everywhere :
    (name tk : Text) (m : Map (List Text))
    → find tk (unsubscribe_everywhere name m) ≡ without name (find tk m)
unfolding unsubscribe_everywhere find
find-unsubscribe_everywhere name tk [] = refl
find-unsubscribe_everywhere name tk ((topic, subs) ∷ m) = ground (
  arith,
  find-unsubscribe_everywhere name tk m,
  find-delete topic tk (unsubscribe_everywhere name m),
)

no_subscribers-contains :
    (k : Text) (s : List Text) → contains k (if no_subscribers s then [] else s) ≡ contains k s
unfolding no_subscribers contains
no_subscribers-contains k [] = refl
no_subscribers-contains k (x ∷ s) = refl

contains-without :
    (name k : Text) (o : Option (List Text))
    → contains k (or_zero [] (without name o)) ≡ not (same name k) && contains k (or_zero [] o)
unfolding contains
contains-without name k none = ground arith
contains-without name k (some s) =
    ground (arith, no_subscribers-contains k (remove name s), contains-remove name k s)

pub contains-unsubscribe_everywhere :
    (name k tk : Text) (m : Map (List Text))
    → contains k (subscribers_of tk (unsubscribe_everywhere name m))
      ≡ not (same name k) && contains k (subscribers_of tk m)
contains-unsubscribe_everywhere name k tk m =
    rw find-unsubscribe_everywhere (contains-without name k (find tk m))

pub contains-subscribe_all :
    (to room k tk : Text) (ts : List Text) (m : Map (List Text))
    → contains k (subscribers_of tk (subscribe_all to room ts m))
      ≡ contains k (subscribers_of tk m) || same to k && contains tk (map (topic_key room) ts)
unfolding subscribe_all contains
contains-subscribe_all to room k tk [] m = ground arith
contains-subscribe_all to room k tk (t ∷ ts) m =
    let tk' = topic_key room t in
    ground (
      arith,
      contains-subscribe_all to room k tk ts (put tk' (add to (subscribers_of tk' m)) m),
      find-put tk' tk (add to (subscribers_of tk' m)) m,
      contains-add to k (subscribers_of tk m),
    )

-- The agent that takes over, and the topics that it brings along.
abbrev pub taken_over : Text → Text → Broker → Agent
taken_over old new b = absorb (find old b.agents) (agent_at new b)

-- What the broker records of an agent under every key, after `from` moved to `to`.
abbrev pub MovedAgents : Text → Text → Broker → Broker → Type 0
MovedAgents from to b moved =
    (other : Text)
    → find other moved.agents ≡ (
        if same from other
        then none
        else if same to other
        then some (taken_over from to b)
        else find other b.agents)

-- Who follows which topic, after `from`, which followed `ts`, moved to `to`.
abbrev pub MovedTopics : Text → Text → List Text → Broker → Broker → Type 0
MovedTopics from to ts b moved =
    (k tk : Text)
    → contains k (subscribers_of tk moved.topics)
      ≡ not (same from k)
        && (contains k (subscribers_of tk b.topics)
            || same to k && contains tk (map (topic_key (room_of to)) ts))

remove_agent_locked_known :
    (name : Text) (b : Broker) {a : Agent}
    → find name b.agents ≡ some a
    → remove_agent_locked name b ≡ (forget name b, true)
unfolding remove_agent_locked
remove_agent_locked_known name b e = rw e

module _ (from to : Text) (b : Broker) (src : Agent) (known : find from b.agents ≡ some src)
    (differ : from ≢ to) where
  migrate-forget : migrate from to b ≡ forget from (arrive from to b)
  unfolding migrate
  migrate-forget =
      ap (λ (r : Broker × Bool). r.0)
        (remove_agent_locked_known from (arrive from to b) still_known)
    where
      still_known : find from (arrive from to b).agents ≡ some src
      still_known =
          unfold arrive update_agent in
          find-put_ne to from (taken_over from to b) b.agents (λ e. differ (sym e)) ∙ known

  migrate-agents : MovedAgents from to b (migrate from to b)
  migrate-agents other = rw migrate-forget (
      unfold forget arrive update_agent in
      rw
        (
          find-delete from other (put to (taken_over from to b) b.agents),
          find-put to other (taken_over from to b) b.agents,
        )
        refl)

  migrate-topics : MovedTopics from to src.topics b (migrate from to b)
  migrate-topics k tk = rw migrate-forget (
      unfold forget arrive update_agent in
      rw
        (
          contains-unsubscribe_everywhere from k tk
              (subscribe_all to (room_of to) (source_topics (find from b.agents)) b.topics),
          contains-subscribe_all to (room_of to) k tk (source_topics (find from b.agents)) b.topics,
          known,
        )
        refl)

module _ (env : Env) (old new session : Text) (pid : ℕ) (force : Bool) (b : Broker) where
  abbrev pub renamed : Broker
  renamed = (rename env old new session pid force b).0

  rename-migrate :
      old ≢ new
      → new ≢ []
      → not force && foreign_live_owner env new session b ≡ false
      → (renamed.agents ≡ (migrate old new b).agents)
        × (renamed.topics ≡ (migrate old new b).topics)
        × (find new renamed.owners
            ≡ some (record { session = session; pid = pid; comm = env.probe_comm pid }))
  unfolding rename
  rename-migrate differ named allowed = ground (
    arith,
    find-put_self new (record { session = session; pid = pid; comm = env.probe_comm pid })
        (migrate old new b).owners,
  )

  module _ (src : Agent) (known : find old b.agents ≡ some src) (differ : old ≢ new)
      (named : new ≢ []) (allowed : not force && foreign_live_owner env new session b ≡ false) where
    -- A rename that the guard lets through moves a known agent: the new key holds its own mail
    -- followed by all of the old key's, the old key is gone, and no other agent changes; the new
    -- key follows what it followed and every topic of the old one (by name, in its own room), the
    -- old key follows nothing, and no one else's subscriptions change; the session owns the new key.
    pub rename_moves :
        MovedAgents old new b renamed
        × MovedTopics old new src.topics b renamed
        × ((taken_over old new b).inbox ≡ (agent_at new b).inbox ++ src.inbox)
        × (find new renamed.owners
            ≡ some (record { session = session; pid = pid; comm = env.probe_comm pid }))
    rename_moves =
        let (agents, topics, owners) = rename-migrate differ named allowed in
        (
          λ other. rw agents (migrate-agents old new b src known differ other),
          λ k tk. rw topics (migrate-topics old new b src known differ k tk),
          rw known (unfold absorb in refl),
          owners,
        )
