-- ===== src/Runs/Reachable.antt =====
-- Every state that the broker can reach is valid.
use mess.Base.{arith, ℕ, List, [], ◌∷◌, Option, none, some}
use mess.Wire.{Message}
use mess.State.{Broker, Env}
use mess.Core.{new_broker}
use mess.Asks.{wait_chan_answer, answers_ask}
use mess.Direct.{cancel_ack}
use mess.Invites.{Invited, sent, refused, Declined, told, not_declined, no_inviter, clear_invite}
use mess.Bridges.{Bridged, bridged, no_bridge}
use mess.Runs.{Call, step, run, after_send, after_invite, after_decline, after_bridge}
use mess.Runs.Helpers.{IsValid}
use mess.Runs.Operations.{
  SendIsValid, send-IsValid, broadcast-IsValid, register-IsValid, register_owned-IsValid,
  rename-IsValid, join_room-IsValid, remove_agent-IsValid, subscribe-IsValid, unsubscribe-IsValid,
}
use mess.Runs.Publishing.{publish-IsValid}
use mess.Runs.Reading.{
  drain_by-IsValid, drain_if_idle-IsValid, drain_quiet-IsValid, wait_chan_by-IsValid,
  claim_identity-IsValid, set_busy-IsValid, set_warn-IsValid, set_state-IsValid,
  add_listener-IsValid, marks-IsValid,
}
use mess.Runs.Upkeep.{
  InvitedIsValid, DeclinedIsValid, BridgedIsValid, send_ask-IsValid, drain_answers-IsValid,
  ambiguous_mention_tokens-IsValid, invite-IsValid, decline-IsValid, bridge-IsValid,
  unbridge-IsValid,
}
use mess.Runs.Sweeping.{cleanup-IsValid, expire_inbox-IsValid}

module _ (b : Broker) (v : IsValid b) where
  after_send-IsValid :
      (o : Option (Broker × Message × Option ℕ)) → SendIsValid o → IsValid (after_send b o)
  unfolding after_send
  after_send-IsValid none h = v
  after_send-IsValid (some (b', m, ch)) h = h

  after_invite-IsValid : (r : Invited) → InvitedIsValid r → IsValid (after_invite b r)
  unfolding after_invite
  after_invite-IsValid (sent b' m) h = h
  after_invite-IsValid (refused e) h = v

  after_decline-IsValid : (r : Declined) → DeclinedIsValid r → IsValid (after_decline b r)
  unfolding after_decline
  after_decline-IsValid (told b' inv m) h = h
  after_decline-IsValid (not_declined e) h = v
  after_decline-IsValid no_inviter h = v

  after_bridge-IsValid : (r : Bridged) → BridgedIsValid r → IsValid (after_bridge b r)
  unfolding after_bridge
  after_bridge-IsValid (bridged b' br) h = h
  after_bridge-IsValid (no_bridge e) h = v

pub step-IsValid : (env : Env) (c : Call) (b : Broker) → IsValid b → IsValid (step env c b)
unfolding step cancel_ack clear_invite wait_chan_answer
step-IsValid env (Call.registers name) b v = register-IsValid env b v name
step-IsValid env (Call.registers_owned name session pid force) b v =
    register_owned-IsValid env b v name session pid force
step-IsValid env (Call.claims name session pid) b v =
    claim_identity-IsValid env b v name session pid
step-IsValid env (Call.renames old new session pid force) b v =
    rename-IsValid env b v old new session pid force
step-IsValid env (Call.joins_room from who session pid force) b v =
    join_room-IsValid env b v from who session pid force
step-IsValid env (Call.removes name) b v = remove_agent-IsValid env b v name
step-IsValid env (Call.sends from to body x) b v =
    after_send-IsValid b v _ (send-IsValid env b v from to body x)
step-IsValid env (Call.cancels_ack id) b v = v
step-IsValid env (Call.broadcasts from room body loud host_wide) b v =
    broadcast-IsValid env b v from room body loud host_wide
step-IsValid env (Call.publishes from topic body thread attach) b v =
    publish-IsValid env from topic body thread attach b v
step-IsValid env (Call.subscribes name topic) b v = subscribe-IsValid env b v name topic
step-IsValid env (Call.unsubscribes name topic) b v = unsubscribe-IsValid env b v name topic
step-IsValid env (Call.reads name peek max p) b v = drain_by-IsValid env b v name peek max p
step-IsValid env (Call.reads_if_idle name max kinds) b v =
    drain_if_idle-IsValid env b v name max kinds
step-IsValid env (Call.reads_quietly name max) b v = drain_quiet-IsValid env b v name max
step-IsValid env (Call.reads_answers name token peek max) b v =
    drain_answers-IsValid env b v name token peek max
step-IsValid env (Call.waits name p) b v = wait_chan_by-IsValid env b v name p
step-IsValid env (Call.waits_answer name token) b v =
    wait_chan_by-IsValid env b v name (λ m. answers_ask m token b)
step-IsValid env (Call.listens name) b v = add_listener-IsValid env b v name
step-IsValid env (Call.stops_listening name) b v = (marks-IsValid env b v name 0).2
step-IsValid env (Call.sets_busy name dur) b v = set_busy-IsValid env b v name dur
step-IsValid env (Call.clears_busy name) b v = (marks-IsValid env b v name 0).0
step-IsValid env (Call.ends_session name) b v = (marks-IsValid env b v name 0).1
step-IsValid env (Call.sets_warn name text ttl) b v = set_warn-IsValid env b v name text ttl
step-IsValid env (Call.sets_state name state) b v = set_state-IsValid env b v name state
step-IsValid env (Call.watches name) b v = (marks-IsValid env b v name 0).3
step-IsValid env (Call.unwatches name ch) b v = (marks-IsValid env b v name ch).4
step-IsValid env (Call.asks from to body) b v =
    after_send-IsValid b v _ (send_ask-IsValid env b v from to body)
step-IsValid env (Call.judges m) b v = ambiguous_mention_tokens-IsValid env b v m
step-IsValid env (Call.invites from to topic room body) b v =
    after_invite-IsValid b v _ (invite-IsValid env b v from to topic room body)
step-IsValid env (Call.declines who token reason) b v =
    after_decline-IsValid b v _ (decline-IsValid env b v who token reason)
step-IsValid env (Call.clears_invite token) b v = v
step-IsValid env (Call.bridges w force) b v =
    after_bridge-IsValid b v _ (bridge-IsValid env b v w force)
step-IsValid env (Call.unbridges id) b v = unbridge-IsValid env b v id
step-IsValid env (Call.cleans_up max_age dry_run) b v = cleanup-IsValid env b v max_age dry_run
step-IsValid env (Call.expires max_age dry_run) b v = expire_inbox-IsValid env b v max_age dry_run

pub runs-IsValid : (calls : List (Env × Call)) (b : Broker) → IsValid b → IsValid (run calls b)
unfolding run
runs-IsValid [] b v = v
runs-IsValid ((env, c) ∷ calls) b v = runs-IsValid calls (step env c b) (step-IsValid env c b v)

-- Whatever calls are made of a new broker, in whatever order and at whatever times: each topic's set
-- holds each subscriber once, no agent and no bridge is in its table twice, and there are never more
-- than 1024 open questions.
pub run-IsValid : (calls : List (Env × Call)) → IsValid (run calls new_broker)
unfolding new_broker
run-IsValid calls = runs-IsValid calls new_broker (tt, tt, tt, (tt, omega arith))
