-- ===== src/Restart/RoundTrip.antt =====
-- What is saved is loaded again: the agents, with their mail.
use mess.Base.{
  ◌≡◌, refl, ap, ap₂, ◌∙◌, Text, Bool, true, false, List, [], ◌∷◌, Map, map, find, find-put,
  Distinct, if◌then◌else◌, keys_of, arith, All, select, sort_by, same, same→eq, some, none,
  Bool-cases, inl, inr, contains, subst,
}
use mess.State.{Agent, AgentSnap, TopicSnap, BridgeSnap, Broker, Env}
use mess.Rooms.{agent_key, text_lt, room_then_name_less}
use mess.Core.{new_broker, new_agent, agent_at, update_agent}
use mess.Owners.{add_topics}
use mess.Snapshot.{snapshot, agent_snap}
use mess.Restart.{
  load, load_agent, load_agents, restored, load_topic, load_topics, load_bridge, load_bridges,
}
use mess.Restart.Sorted.{select-cons-none, select-cons-one, select-sort_by-one}

mine : Text → AgentSnap → Bool
mine k s = same (agent_key s.room s.name) k

load_agent-find :
    (env : Env) (k : Text) (s : AgentSnap) (b : Broker)
    → find k (load_agent env s b).agents ≡ (
        if mine k s
        then some (restored s (agent_at (agent_key s.room s.name) b))
        else find k b.agents)
unfolding load_agent update_agent mine
load_agent-find env k s b =
    let key = agent_key s.room s.name in find-put key k (restored s (agent_at key b)) b.agents

load_agents-none :
    (env : Env) (k : Text) (ss : List AgentSnap) (b : Broker)
    → select (mine k) ss ≡ []
    → find k (load_agents env ss b).agents ≡ find k b.agents
unfolding load_agents
load_agents-none env k [] b e = refl
load_agents-none env k (s ∷ ss) b e =
    let (out, rest) = select-cons-none (λ _ _. true) (mine k) s ss e in
    load_agents-none env k ss (load_agent env s b) rest ∙ load_agent-find env k s b ∙ rw out refl

mine-eq : (k : Text) (s : AgentSnap) → mine k s ≡ true → agent_key s.room s.name ≡ k
unfolding mine
mine-eq k s own = same→eq (agent_key s.room s.name) k own

agent_at-absent : (k : Text) (b : Broker) → find k b.agents ≡ none → agent_at k b ≡ new_agent k
unfolding agent_at
agent_at-absent k b absent = rw absent refl

load_agents-one :
    (env : Env) (k : Text) (t : AgentSnap) (ss : List AgentSnap) (b : Broker)
    → select (mine k) ss ≡ t ∷ []
    → find k b.agents ≡ none
    → find k (load_agents env ss b).agents ≡ some (restored t (new_agent k))
unfolding load_agents select
load_agents-one env k t [] b e absent = cc
load_agents-one env k t (s ∷ ss) b e absent =
    elim (select-cons-one (λ _ _. true) (mine k) t s ss e) [
      | inl (own, here, rest) ↦
          load_agents-none env k ss (load_agent env s b) rest
          ∙ load_agent-find env k s b
          ∙ rw own refl
          ∙ ap (λ j. some (restored s (agent_at j b))) (mine-eq k s own)
          ∙ ap (λ a. some (restored s a)) (agent_at-absent k b absent)
          ∙ ap (λ u. some (restored u (new_agent k))) here
      | inr (out, there) ↦
          load_agents-one env k t ss (load_agent env s b) there
            (load_agent-find env k s b ∙ rw out absent)
    ]

-- An agent's key is made of its room and its name.
abbrev pub Keyed : Text × Agent → Type 0
Keyed e = agent_key e.1.room e.1.name ≡ e.0

mine-agent_snap :
    (b : Broker) (k j : Text) (c : Agent) → Keyed (j, c) → mine k (agent_snap b (j, c)) ≡ same j k
unfolding mine agent_snap
mine-agent_snap b k j c key = ap (λ i. same i k) key

select-snaps_none :
    (b : Broker) (k : Text) (agents : Map Agent)
    → All Keyed agents
    → contains k (keys_of agents) ≡ false
    → select (mine k) (map (agent_snap b) agents) ≡ []
unfolding select contains mine agent_snap
select-snaps_none b k [] h e = refl
select-snaps_none b k ((j, a) ∷ agents) (key, h) e =
    ground (arith, key, e, select-snaps_none b k agents h)

select-snaps_one :
    (b : Broker) (k : Text) (a : Agent) (agents : Map Agent)
    → All Keyed agents
    → Distinct (keys_of agents)
    → find k agents ≡ some a
    → select (mine k) (map (agent_snap b) agents) ≡ agent_snap b (k, a) ∷ []
unfolding select find
select-snaps_one b k a [] h d e = cc
select-snaps_one b k a ((j, c) ∷ agents) (key, h) (new, d) e =
    let own = mine-agent_snap b k j c key in
    elim (Bool-cases (same j k)) [
      | inl s ↦
          let jk = same→eq j k s in
          let ca : c ≡ a = ground (arith, e, s) in
          rw (own, s)
            (ap (◌∷◌ (agent_snap b (j, c))) (
                select-snaps_none b k agents h
                  (subst (λ i. contains i (keys_of agents) ≡ false) jk new))
              ∙ ap₂ (λ i o. agent_snap b (i, o) ∷ []) jk ca)
      | inr s ↦
          let there : find k agents ≡ some a = ground (arith, e, s) in
          rw (own, s) (select-snaps_one b k a agents h d there)
    ]

load_topics-agents : (ss : List TopicSnap) (b : Broker) → (load_topics ss b).agents ≡ b.agents
unfolding load_topics load_topic
load_topics-agents [] b = refl
load_topics-agents (s ∷ ss) b = load_topics-agents ss (load_topic s b)

load_bridges-agents : (ss : List BridgeSnap) (b : Broker) → (load_bridges ss b).agents ≡ b.agents
unfolding load_bridges load_bridge
load_bridges-agents [] b = refl
load_bridges-agents (s ∷ ss) b = load_bridges-agents ss (load_bridge s b)

-- An agent survives a restart: where no key stands twice and each key is made of its agent's room and
-- name, the state that is loaded from a snapshot has every agent that was saved, with all of its
-- unread mail in its order, its self-reported state and the topics that it follows, and with no
-- history and no waiters.
pub load-snapshot :
    (env : Env) (b : Broker) (k : Text) (a : Agent)
    → Distinct (keys_of b.agents)
    → All Keyed b.agents
    → find k b.agents ≡ some a
    → find k (load env (snapshot b) new_broker).agents
      ≡ some (record (new_agent k) {
        inbox = a.inbox;
        state = a.state;
        topics = add_topics (sort_by text_lt a.topics) [];
      })
unfolding load find
load-snapshot env b k a d keyed e =
    let less = λ (x y : AgentSnap). room_then_name_less x.room x.name y.room y.name in
    ap (find k)
      (load_bridges-agents (snapshot b).bridges _ ∙ load_topics-agents (snapshot b).topics _)
    ∙ load_agents-one env k (agent_snap b (k, a)) (snapshot b).agents _
        (unfold snapshot in
          select-sort_by-one less (mine k) (agent_snap b (k, a)) (map (agent_snap b) b.agents)
            (select-snaps_one b k a b.agents keyed d e))
        refl
    ∙ unfold restored agent_snap new_agent in refl
