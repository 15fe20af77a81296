-- ===== src/Core/Frame.antt =====
-- What the helpers leave alone, and the agent that they find.
use mess.Base.{Text, ◌≡◌, refl, arith, find-put, same, if◌then◌else◌}
use mess.State.{Agent, Broker, Env}
use mess.Core.{agent_at, new_agent, ensure, update_agent, touch, changed}

-- `ensure` changes no agent's state: it makes the one that a lookup would have been given.
pub agent_at-ensure :
    (name other : Text) (b : Broker) → agent_at name (ensure other b) ≡ agent_at name b
unfolding agent_at ensure
agent_at-ensure name other b = ground (arith, find-put other name (new_agent other) b.agents)

pub agent_at-update_agent :
    (name other : Text) (f : Agent → Agent) (b : Broker)
    → agent_at name (update_agent other f b)
      ≡ (if same other name then f (agent_at other b) else agent_at name b)
unfolding agent_at update_agent
agent_at-update_agent name other f b =
    ground (arith, find-put other name (f (agent_at other b)) b.agents)

pub agent_at-touch :
    (env : Env) (name other : Text) (b : Broker)
    → agent_at name (touch env other b) ≡ agent_at name b
unfolding agent_at touch
agent_at-touch env name other b = refl

pub agent_at-changed : (name : Text) (b : Broker) → agent_at name (changed b) ≡ agent_at name b
unfolding agent_at changed
agent_at-changed name b = refl

-- Two states with the same agents.
pub agent_at-agents :
    (name : Text) (b c : Broker) → b.agents ≡ c.agents → agent_at name b ≡ agent_at name c
unfolding agent_at
agent_at-agents name b c e = rw e
