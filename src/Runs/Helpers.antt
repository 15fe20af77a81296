-- ===== src/Runs/Helpers.antt =====
-- What every operation is made of keeps the state valid.
use mess.Base.{
  keys_of, Bool, true, false, List, [], ◌∷◌, Text, or_zero, add, remove, Distinct, Map, find, put,
  delete, is_some, is_empty, Bool-cases, inl, inr,
}
use mess.Rooms.{topic_key, room_of}
use mess.Wire.{Message}
use mess.State.{Agent, Broker}
use mess.Core.{
  agent_at, ensure, update_agent, deliver, deliver_quiet, deliver_to, deliver_quiet_to,
  evict_waiters, new_agent,
}
use mess.Owners.{
  unsubscribe_everywhere, forget, remove_agent_locked, subscribe_all, arrive, migrate, absorb,
}
use mess.Direct.{track_if_threaded, track_participant, open_ack}
use mess.Asks.Table.{AsksIsValid}
use mess.Runs.Tables.{
  Distinct-put, Distinct-delete, Distinct-add, Distinct-remove, Sets, Sets-find, Sets-put,
  Sets-delete, either,
}

-- Each topic's set holds each subscriber once, no agent and no bridge is in its table twice, and the
-- table of open questions is in order and within its limit.
abbrev pub IsValid : Broker → Type 0
IsValid b =
    Sets b.topics × Distinct (keys_of b.agents) × Distinct (keys_of b.bridges) × AsksIsValid b

pub update_agent-IsValid :
    (key : Text) (f : Agent → Agent) (b : Broker) → IsValid b → IsValid (update_agent key f b)
unfolding update_agent
update_agent-IsValid key f b (t, a, br, q) =
    (t, Distinct-put key (f (agent_at key b)) b.agents a, br, q)

pub ensure-IsValid : (key : Text) (b : Broker) → IsValid b → IsValid (ensure key b)
unfolding ensure
ensure-IsValid key b (t, a, br, q) = (
  t,
  either (λ (m : Map Agent). Distinct (keys_of m)) (is_some (find key b.agents)) b.agents
      (put key (new_agent key) b.agents) a (Distinct-put key (new_agent key) b.agents a),
  br,
  q,
)

pub deliver_to-IsValid :
    (key : Text) (m : Message) (b : Broker) → IsValid b → IsValid (deliver_to key m b)
unfolding deliver_to
deliver_to-IsValid key m b v = update_agent-IsValid key (deliver m) b v

pub deliver_quiet_to-IsValid :
    (key : Text) (m : Message) (b : Broker) → IsValid b → IsValid (deliver_quiet_to key m b)
unfolding deliver_quiet_to
deliver_quiet_to-IsValid key m b v = update_agent-IsValid key (deliver_quiet m) b v

Sets-unsubscribe_everywhere :
    (name : Text) (m : Map (List Text)) → Sets m → Sets (unsubscribe_everywhere name m)
unfolding unsubscribe_everywhere
Sets-unsubscribe_everywhere name [] h = tt
Sets-unsubscribe_everywhere name ((topic, subs) ∷ m) (d, h) =
    let rest = unsubscribe_everywhere name m in
    let left = Sets-unsubscribe_everywhere name m h in
    either Sets _ (delete topic rest) ((topic, remove name subs) ∷ rest)
      (Sets-delete topic rest left) (Distinct-remove name subs d, left)

Sets-subscribe_all :
    (to room : Text) (ts : List Text) (m : Map (List Text))
    → Sets m
    → Sets (subscribe_all to room ts m)
unfolding subscribe_all
Sets-subscribe_all to room [] m h = h
Sets-subscribe_all to room (t ∷ ts) m h =
    let tk = topic_key room t in
    let subs = or_zero [] (find tk m) in
    Sets-subscribe_all to room ts (put tk (add to subs) m)
      (Sets-put tk (add to subs) m (Distinct-add to subs (Sets-find tk m h)) h)

pub remove_agent_locked-IsValid :
    (name : Text) (b : Broker) → IsValid b → IsValid (remove_agent_locked name b).0
unfolding remove_agent_locked forget evict_waiters
remove_agent_locked-IsValid name b (t, a, br, q) =
    elim (Bool-cases (is_some (find name b.agents))) [
      | inl e ↦
          rw e (Sets-unsubscribe_everywhere name b.topics t, Distinct-delete name b.agents a, br, q)
      | inr e ↦ rw e (t, a, br, q)
    ]

pub migrate-IsValid : (from to : Text) (b : Broker) → IsValid b → IsValid (migrate from to b)
unfolding migrate
migrate-IsValid from to b (t, a, br, q) = remove_agent_locked-IsValid from (arrive from to b) (
    unfold arrive update_agent in
    (
      Sets-subscribe_all to (room_of to) _ b.topics t,
      Distinct-put to (absorb (find from b.agents) (agent_at to b)) b.agents a,
      br,
      q,
    ))

pub track_if_threaded-IsValid :
    (thread key : Text) (b : Broker) → IsValid b → IsValid (track_if_threaded thread key b)
unfolding track_if_threaded track_participant
track_if_threaded-IsValid thread key b v = either IsValid (is_empty thread) b _ v v

pub open_ack-IsValid :
    (ack : Bool) (id : Text) (b : Broker) → IsValid b → IsValid (open_ack ack id b).0
unfolding open_ack
open_ack-IsValid false id b v = v
open_ack-IsValid true id b v = v
