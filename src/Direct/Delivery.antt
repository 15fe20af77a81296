-- ===== src/Direct/Delivery.antt =====
-- Who gets a direct message, and who gets a broadcast.
use mess.Base.{
  has-append, any, has, ℕ, ◌+◌, ◌≡◌, refl, ap, ◌∙◌, Bool, true, false, ◌&&◌, ◌||◌, [], ◌∷◌, ◌++◌,
  arith, if◌then◌else◌, Bool-cases, inl, inr, Text, same, same→eq, contains, Option, Option-cases,
  none, some, or_zero, find, find-put_self, is_empty, Map, is_some, length, select,
}
use mess.Rooms.{bare}
use mess.Ids.{msg_id}
use mess.Mentions.{mentions_in}
use mess.Wire.{Message, blank, kind_broadcast}
use mess.State.{Agent, Broker, Env}
use mess.Core.{agent_at, deliver, deliver_to, new_agent, touch, changed, next_id}
use mess.Core.Frame.{agent_at-update_agent, agent_at-agents}
use mess.Direct.{
  track_if_threaded, Extras, direct_message, open_ack, send, receives, copy_for, broadcast_agents,
  signalled, reached, broadcast,
}

module _ (env : Env) (from to body : Text) (x : Extras) (b : Broker) where
  -- The message that is sent.
  abbrev pub sent : Message
  sent = direct_message env.now (msg_id (b.seq + 1)) from to body x

  -- The broker before the delivery.
  abbrev ready : Broker
  ready = track_if_threaded x.thread_id from (touch env from (next_id b).0)

  ready-agents : ready.agents ≡ b.agents
  unfolding next_id touch track_if_threaded mess.Direct.track_participant
  ready-agents = elim (Bool-cases (is_empty x.thread_id)) [ inl e ↦ rw e refl | inr e ↦ rw e refl ]

  ready-fired : (deliver_to to sent ready).fired ≡ (agent_at to b).waiters ++ b.fired
  unfolding deliver_to next_id touch track_if_threaded mess.Direct.track_participant agent_at
  ready-fired = elim (Bool-cases (is_empty x.thread_id)) [ inl e ↦ rw e refl | inr e ↦ rw e refl ]

  delivered :
      (k : Text)
      → agent_at k (deliver_to to sent ready)
        ≡ (if same to k then deliver sent (agent_at to b) else agent_at k b)
  unfolding deliver_to agent_at
  delivered k =
      agent_at-update_agent k to (deliver sent) ready
      ∙ rw (agent_at-agents to ready b ready-agents, agent_at-agents k ready b ready-agents) refl

  sent-id : sent.id ≡ msg_id (b.seq + 1)
  unfolding direct_message
  sent-id = elim (Option-cases x.attach) [ inl e ↦ rw e refl | inr (a, e) ↦ rw e refl ]

  -- What is true of the broker, the message and the receipt channel that `send` returns.
  abbrev pub Sent : Option (Broker × Message × Option ℕ) → Type 0
  Sent none = is_empty to ≡ true
  Sent (some (after, m, ch)) =
      (is_empty to ≡ false)
      × (m ≡ sent)
      × (m.id ≡ msg_id (b.seq + 1))
      × ((k : Text)
          → agent_at k after ≡ (if same to k then deliver sent (agent_at to b) else agent_at k b))
      × (after.fired ≡ (agent_at to b).waiters ++ b.fired)
      × (if x.ack then find (msg_id (b.seq + 1)) after.pending_acks ≡ ch else ch ≡ none)

  open_ack-agents :
      (ack : Bool) (id : Text) (c : Broker)
      → ((open_ack ack id c).0.agents ≡ c.agents)
        × ((open_ack ack id c).0.fired ≡ c.fired)
        × (if ack
            then find id (open_ack ack id c).0.pending_acks ≡ (open_ack ack id c).1
            else (open_ack ack id c).1 ≡ none)
  unfolding open_ack
  open_ack-agents false id c = (refl, refl, refl)
  open_ack-agents true id c = (refl, refl, find-put_self id c.next_chan c.pending_acks)

  -- A direct message gets the next id and lands at the end of its recipient's inbox, where it
  -- signals each waiter; no other agent changes. The receipt channel, if one was asked for, is the
  -- one that awaits this id. Only without a recipient is nothing sent.
  pub send_lem : Sent (send env from to body x b)
  unfolding send changed next_id
  send_lem =
      let opened = open_ack-agents x.ack (msg_id (b.seq + 1)) (deliver_to to sent ready) in
      elim (Bool-cases (is_empty to)) [
        | inl e ↦ rw (send, e) e
        | inr e ↦
            rw (send, e)
              (
                e,
                refl,
                unfold next_id in sent-id,
                λ k.
                    unfold agent_at in
                    (ap (λ (m : Map Agent). or_zero (new_agent k) (find k m)) opened.0
                      ∙ delivered k),
                opened.1 ∙ ready-fired,
                opened.2,
              )
      ]

module _ (from room : Text) (host_wide : Bool) (m : Message) where
  -- The state of an agent after a broadcast, which has reached it or not.
  broadcast_agents_lem :
      (k : Text) (agents : Map Agent)
      → or_zero (new_agent k) (find k (broadcast_agents from room host_wide m agents)) ≡ (
          if receives from room host_wide k && is_some (find k agents)
          then deliver (copy_for from room host_wide m k) (or_zero (new_agent k) (find k agents))
          else or_zero (new_agent k) (find k agents))
  unfolding broadcast_agents find
  broadcast_agents_lem k [] = ground arith
  broadcast_agents_lem k ((j, a) ∷ agents) =
      ground (arith, broadcast_agents_lem k agents, same→eq j k)

  reached_lem :
      (agents : Map Agent)
      → reached from room host_wide agents
        ≡ length (select (λ (e : Text × Agent). receives from room host_wide e.0) agents)
  unfolding reached select
  reached_lem [] = refl
  reached_lem ((j, a) ∷ agents) = ground (arith, reached_lem agents)

-- Whether a channel belongs to a waiter of an agent that a broadcast reaches.
abbrev pub waits : Text → Text → Bool → ℕ → Text × Agent → Bool
waits from room host_wide c e = receives from room host_wide e.0 && has c e.1.waiters

or_if : (x y : Bool) → x || y ≡ (if x then true else y)
or_if true y = refl
or_if false y = refl

signalled_lem :
    (from room : Text) (host_wide : Bool) (c : ℕ) (agents : Map Agent)
    → has c (signalled from room host_wide agents) ≡ any (waits from room host_wide c) agents
unfolding signalled any has
signalled_lem from room host_wide c [] = refl
signalled_lem from room host_wide c ((key, a) ∷ rest) =
    elim (Bool-cases (receives from room host_wide key)) [
      | inl e ↦ rw e (
          has-append c a.waiters (signalled from room host_wide rest)
          ∙ ap (λ y. has c a.waiters || y) (signalled_lem from room host_wide c rest)
          ∙ or_if (has c a.waiters) _)
      | inr e ↦ rw e (signalled_lem from room host_wide c rest)
    ]

module _ (env : Env) (from room body : Text) (loud host_wide : Bool) (b : Broker) where
  -- The message that is broadcast.
  abbrev pub called : Message
  called = record blank {
    id = msg_id (b.seq + 1);
    from = bare from;
    kind = kind_broadcast;
    body = body;
    time = env.now;
    loud = loud;
  }

  abbrev pub heard : Text → Message
  heard k = record called { loud = loud || contains (bare k) (mentions_in body) }

  pub broadcast_lem :
      ((k : Text)
        → agent_at k (broadcast env from room body loud host_wide b).0 ≡ (
            if receives from room host_wide k && is_some (find k b.agents)
            then deliver (heard k) (agent_at k b)
            else agent_at k b))
      × ((broadcast env from room body loud host_wide b).2
          ≡ length (select (λ (e : Text × Agent). receives from room host_wide e.0) b.agents))
      × ((c : ℕ)
          → has c (broadcast env from room body loud host_wide b).0.fired
            ≡ any (waits from room host_wide c) b.agents || has c b.fired)
  unfolding broadcast agent_at touch changed next_id copy_for
  broadcast_lem = (
    λ k. broadcast_agents_lem from room host_wide called k b.agents,
    reached_lem from room host_wide called b.agents,
    λ c.
        has-append c (signalled from room host_wide b.agents) b.fired
        ∙ rw (signalled_lem from room host_wide c b.agents) refl,
  )
