-- ===== src/Runs.antt =====
-- broker.go as a whole: a call is one of the broker's methods with its arguments, and a run is a
-- sequence of calls, each at its own time. A method holds the lock for its whole body, so the
-- calls of any number of clients happen one after another, in some order. The exceptions are SendAsk,
-- Invite and Decline, which release it between their parts: that another call falls in between is not
-- modelled.
pub mod Tables
pub mod Helpers
pub mod Operations
pub mod Publishing
pub mod Reading
pub mod Questions
pub mod Upkeep
pub mod Sweeping
pub mod Reachable
pub mod Reaches
use mess.Base.{ℤ, ℕ, Text, Bool, List, [], ◌∷◌, Option, none, some}
use mess.Wire.{Message, Attachment}
use mess.State.{Broker, Env}
use mess.Presence.{
  set_busy, clear_busy, end_session, set_warn, set_state, add_listener, remove_listener,
  watch_evict, unwatch_evict,
}
use mess.Owners.{register, register_owned, claim_identity, rename, join_room, remove_agent}
use mess.Direct.{Extras, send, cancel_ack, broadcast}
use mess.Inbox.{drain_by, drain_if_idle, drain_quiet, wait_chan_by}
use mess.Topics.{publish, subscribe, unsubscribe}
use mess.Asks.{send_ask, ambiguous_mention_tokens, drain_answers, wait_chan_answer}
use mess.Invites.{
  Invited, sent, refused, invite, Declined, told, not_declined, no_inviter, decline, clear_invite,
}
use mess.Bridges.{Wish, Bridged, bridged, no_bridge, bridge, unbridge}
use mess.Sweeps.{cleanup, expire_inbox}

-- The methods that change the state; a read or a wait is for the messages that pass its test.
pub data Call : Type 0 where
  registers : Text → Call
  registers_owned : Text → Text → ℕ → Bool → Call
  claims : Text → Text → ℕ → Call
  renames : Text → Text → Text → ℕ → Bool → Call
  joins_room : Text → Text → Text → ℕ → Bool → Call
  removes : Text → Call
  sends : Text → Text → Text → Extras → Call
  cancels_ack : Text → Call
  broadcasts : Text → Text → Text → Bool → Bool → Call
  publishes : Text → Text → Text → Text → Option Attachment → Call
  subscribes : Text → Text → Call
  unsubscribes : Text → Text → Call
  reads : Text → Bool → ℕ → (Message → Bool) → Call
  reads_if_idle : Text → ℕ → Option (List Text) → Call
  reads_quietly : Text → ℕ → Call
  reads_answers : Text → Text → Bool → ℕ → Call
  waits : Text → (Message → Bool) → Call
  waits_answer : Text → Text → Call
  listens : Text → Call
  stops_listening : Text → Call
  sets_busy : Text → ℤ → Call
  clears_busy : Text → Call
  ends_session : Text → Call
  sets_warn : Text → Text → ℤ → Call
  sets_state : Text → Text → Call
  watches : Text → Call
  unwatches : Text → ℕ → Call
  asks : Text → Text → Text → Call
  judges : Message → Call
  invites : Text → Text → Text → Text → Text → Call
  declines : Text → Text → Text → Call
  clears_invite : Text → Call
  bridges : Wish → Bool → Call
  unbridges : Text → Call
  cleans_up : ℤ → Bool → Call
  expires : ℤ → Bool → Call

-- A call that fails leaves the state as it was.
unfoldable pub after_send : Broker → Option (Broker × Message × Option ℕ) → Broker
after_send b none = b
after_send b (some (b', m, ch)) = b'

unfoldable pub after_invite : Broker → Invited → Broker
after_invite b (sent b' m) = b'
after_invite b (refused e) = b

unfoldable pub after_decline : Broker → Declined → Broker
after_decline b (told b' inv m) = b'
after_decline b (not_declined e) = b
after_decline b no_inviter = b

unfoldable pub after_bridge : Broker → Bridged → Broker
after_bridge b (bridged b' br) = b'
after_bridge b (no_bridge e) = b

unfoldable pub step : Env → Call → Broker → Broker
unfolding after_send after_invite after_decline after_bridge
step env (registers name) b = register env name b
step env (registers_owned name session pid force) b =
    (register_owned env name session pid force b).0
step env (claims name session pid) b = (claim_identity env name session pid b).0
step env (renames old new session pid force) b = (rename env old new session pid force b).0
step env (joins_room from who session pid force) b = (join_room env from who session pid force b).0
step env (removes name) b = (remove_agent name b).0
step env (sends from to body x) b = after_send b (send env from to body x b)
step env (cancels_ack id) b = cancel_ack id b
step env (broadcasts from room body loud host_wide) b =
    (broadcast env from room body loud host_wide b).0
step env (publishes from topic body thread attach) b =
    (publish env from topic body thread attach b).0
step env (subscribes name topic) b = subscribe env name topic b
step env (unsubscribes name topic) b = unsubscribe env name topic b
step env (reads name peek max p) b = (drain_by env name peek max p b).0
step env (reads_if_idle name max kinds) b = (drain_if_idle env name max kinds b).0
step env (reads_quietly name max) b = (drain_quiet name max b).0
step env (reads_answers name token peek max) b = (drain_answers env name token peek max b).0
step env (waits name p) b = (wait_chan_by name p b).0
step env (waits_answer name token) b = (wait_chan_answer name token b).0
step env (listens name) b = add_listener env name b
step env (stops_listening name) b = remove_listener env name b
step env (sets_busy name dur) b = set_busy env name dur b
step env (clears_busy name) b = clear_busy env name b
step env (ends_session name) b = end_session env name b
step env (sets_warn name text ttl) b = set_warn env name text ttl b
step env (sets_state name state) b = set_state env name state b
step env (watches name) b = (watch_evict name b).0
step env (unwatches name ch) b = unwatch_evict name ch b
step env (asks from to body) b = after_send b (send_ask env from to body b)
step env (judges m) b = (ambiguous_mention_tokens m b).0
step env (invites from to topic room body) b = after_invite b (invite env from to topic room body b)
step env (declines who token reason) b = after_decline b (decline env who token reason b)
step env (clears_invite token) b = clear_invite token b
step env (bridges w force) b = after_bridge b (bridge env w force b)
step env (unbridges id) b = (unbridge id b).0
step env (cleans_up max_age dry_run) b = (cleanup env max_age dry_run b).0
step env (expires max_age dry_run) b = (expire_inbox env max_age dry_run b).0

-- The calls of a run, the first one first.
unfoldable pub run : List (Env × Call) → Broker → Broker
unfolding step
run [] b = b
run ((env, call) ∷ calls) b = run calls (step env call b)
