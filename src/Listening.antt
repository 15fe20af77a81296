-- ===== src/Listening.antt =====
-- daemon.go: handleListen, which streams messages to one connection as long as it lasts.
pub mod Calls
use mess.Base.{
  is_some, ℕ, Text, codes, Bool, true, false, ◌&&◌, not, List, [], ◌∷◌, Option, none, some,
  is_empty, length, same, ℤ, pos, or_zero, is_positive, if◌then◌else◌,
}
use mess.Rooms.{agent_key}
use mess.Mentions.{is_user_handle}
use mess.Wire.{Message}
use mess.State.{Broker, Env}
use mess.Presence.{alive, add_listener, remove_listener}
use mess.Owners.{Refusal, claim_identity, is_registered, find_other_room}
use mess.Inbox.{drain_kinds, drain_thread, drain_if_idle, has_pending, wait_chan}
use mess.Asks.{send_ask, has_pending_answer, wait_chan_answer, drain_answers}
use mess.Durations.{parse_duration}
use mess.Requests.{Request, who_of, self_of, kind_set, acts_as_self, well_formed}
use mess.Replies.{
  Failure, Response, done, failed, bad_control_byte, refused, ask_needs_registered, offline,
  no_recipient, await_needs_token, no_listen_identity, invalid_timeout,
}
use mess.Runs.{Call, run}
use mess.Handlers.{need_duration, Host, Outcome, Handler, answer, fails}
use mess.Handlers.Reading.{listed}
use mess.Dispatch.{dispatch}
use mess.Waiting.{
  batch_of, Waking, delivery, eviction, timeout, disconnect, shutdown, Pause, Wait, Waited,
  cut_short, park_and_drain,
}

-- Where the loop of a stream stands.
pub data Phase : Type 0 where
  at_drain in_window : Phase

pub record Stream : Type 0 where
  pub broker : Broker
  pub batches : List Response
  pub ended : Bool

abbrev sent_batch : Response → Stream → Stream
sent_batch r s = record s { batches = r ∷ s.batches }

abbrev over : Bool → Broker → Stream
over ended b = record { broker = b; batches = []; ended = ended }

-- Whether a stream that is idle ends at this; `idle` says that it has a limit.
unfoldable pub ends_idle : Bool → Waking → Bool
ends_idle idle delivery = false
ends_idle idle eviction = false
ends_idle idle timeout = idle
ends_idle idle disconnect = true
ends_idle idle shutdown = true

ends_window : Waking → Bool
unfolding cut_short
ends_window waking = is_some (cut_short waking)

is_gone : Waking → Bool
is_gone disconnect = true
is_gone _ = false

after_delivery : ℤ → Phase
after_delivery batch = if is_positive batch then in_window else at_drain

module _ (req : Request) (idle : Bool) where
  -- What follows on a drain, given what the rest of the pauses make of each phase: a batch that cannot
  -- be written, as the client is gone, ends the stream.
  unfoldable pub stream_round : Pause → Broker → List Message → (Phase → Broker → Stream) → Stream
  unfolding ends_idle is_gone after_delivery
  stream_round p b [] go =
      let b' = run p.calls (wait_chan (who_of req) (kind_set req.kinds) b).0 in
      if ends_idle idle p.waking then over true b' else go (after_delivery (batch_of req)) b'
  stream_round p b (m ∷ ms) go =
      let b' = run p.calls b in
      if is_gone p.waking then over true b' else sent_batch (listed (m ∷ ms)) (go at_drain b')

  unfoldable pub stream : List Pause → Env → Phase → Broker → Stream
  unfolding stream_round ends_window
  stream [] env phase b = over false b
  stream (p ∷ ps) env in_window b =
      let b' = run p.calls b in
      let rest = stream ps p.env at_drain b' in if ends_window p.waking then over true b' else rest
  stream (p ∷ ps) env at_drain b =
      let (b', ms) = drain_kinds env (who_of req) false req.max (kind_set req.kinds) b in
      stream_round p b' ms (stream ps p.env)

-- The connection counts as a listener as long as the stream lasts.
unfoldable pub listen_with :
    Host → List Pause → Request → Option ℤ → Broker → Broker × List Response
unfolding stream
listen_with host pauses req none b = (b, failed (invalid_timeout req.timeout) ∷ [])
listen_with host pauses req (some idle) b =
    let s =
      stream req (is_positive idle) pauses host.env at_drain
        (add_listener host.env (who_of req) b) in
    (if s.ended then remove_listener host.env (who_of req) s.broker else s.broker, s.batches)

unfoldable pub listen : Host → List Pause → Request → Broker → Broker × List Response
unfolding listen_with
listen host pauses req b =
    if is_empty req.as_name
    then (b, failed no_listen_identity ∷ [])
    else listen_with host pauses req (need_duration (pos 0) req.timeout) b
