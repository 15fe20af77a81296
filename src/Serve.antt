-- ===== src/Serve.antt =====
-- daemon.go: `handle`, the door of the daemon, with the operations that hold their connection: `recv`,
-- `ask`, `await` and `listen`. What may happen while one of them waits is a list of pauses.
pub mod Gate
pub mod Valid
use mess.Listening.{listen}
use mess.Base.{
  is_some, ℕ, Text, codes, Bool, true, false, ◌&&◌, not, List, [], ◌∷◌, Option, none, some,
  is_empty, length, same, ℤ, pos, or_zero, is_positive, if◌then◌else◌,
}
use mess.Rooms.{agent_key}
use mess.Mentions.{is_user_handle}
use mess.Wire.{Message}
use mess.State.{Broker, Env}
use mess.Presence.{alive, add_listener, remove_listener}
use mess.Owners.{Refusal, claim_identity, is_registered, find_other_room}
use mess.Inbox.{drain_kinds, drain_thread, drain_if_idle, has_pending, wait_chan}
use mess.Asks.{send_ask, has_pending_answer, wait_chan_answer, drain_answers}
use mess.Durations.{parse_duration}
use mess.Requests.{Request, who_of, self_of, kind_set, acts_as_self, well_formed}
use mess.Replies.{
  Failure, Response, done, failed, bad_control_byte, refused, ask_needs_registered, offline,
  no_recipient, await_needs_token, no_listen_identity, invalid_timeout,
}
use mess.Runs.{Call, run}
use mess.Handlers.{Host, Outcome, Handler, answer, fails}
use mess.Handlers.Reading.{listed}
use mess.Dispatch.{dispatch}
use mess.Waiting.{
  batch_of, Waking, delivery, eviction, timeout, disconnect, shutdown, Pause, Wait, Waited,
  cut_short, park_and_drain,
}

abbrev pub at_once : Broker × List Message → Waited
at_once (b, ms) = (b, some (listed ms))

-- Some other kinds of message do not wake a reader, but a reader that woke takes them all.
abbrev pub recv_wait : Request → Wait
recv_wait req = record {
  has_mail = has_pending (who_of req) (kind_set req.kinds);
  wake_chan = wait_chan (who_of req) (kind_set req.kinds);
  drain = λ env. drain_kinds env (who_of req) req.peek req.max none;
}

unless_busy : Broker × List Message × Bool → Waited
unless_busy (b, ms, true) = (b, some (listed ms))
unless_busy (b, ms, false) = (b, some (record done { busy = true }))

unfoldable pub recv : Host → List Pause → Request → Broker → Waited
unfolding unless_busy
recv host pauses req b =
    if not req.wait && not (is_empty req.thread_id)
    then at_once (drain_thread host.env (who_of req) req.thread_id req.peek req.max b)
    else if not req.wait && req.if_idle
    then unless_busy (drain_if_idle host.env (who_of req) req.max (kind_set req.kinds) b)
    else if not req.wait
    then at_once (drain_kinds host.env (who_of req) req.peek req.max (kind_set req.kinds) b)
    else park_and_drain (recv_wait req) (batch_of req) host.env (who_of req) req.timeout pauses b

-- Whom `ask` addresses; the form room/name is not read here.
unfoldable pub askee_of : Host → Request → Text
askee_of host req =
    if is_user_handle host.env.logins req.to then req.to else agent_key req.room req.to

-- Why a question cannot be put: nobody is there to answer it.
unfoldable pub cannot_ask : Host → Request → Broker → Option Failure
unfolding askee_of
cannot_ask host req b =
    let to = askee_of host req in
    if is_user_handle host.env.logins req.to
    then none
    else if not (is_registered to b)
    then some (ask_needs_registered req.to req.room (find_other_room req.room req.to b))
    else if not (alive host.env to b)
    then some (offline req.to)
    else none

abbrev pub answer_wait : Request → Text → Wait
answer_wait req token = record {
  has_mail = has_pending_answer (who_of req) token;
  wake_chan = wait_chan_answer (who_of req) token;
  drain = λ env. drain_answers env (who_of req) token req.peek req.max;
}

-- An answer carries the token that was waited for.
unfoldable pub with_token : Text → Waited → Waited
with_token token (b, none) = (b, none)
with_token token (b, some r) = (b, some (record r { id = token }))

unfoldable pub await : Host → List Pause → Request → Text → Broker → Waited
unfolding with_token
await host pauses req token b =
    let wait =
      park_and_drain (answer_wait req token) (batch_of req) host.env (who_of req) req.timeout pauses
        b in
    if is_empty token
    then (b, some (failed await_needs_token))
    else if not req.wait
    then with_token token (at_once (drain_answers host.env (who_of req) token req.peek req.max b))
    else with_token token wait

unfoldable pub ask_sent :
    Host → List Pause → Request → Broker → Option (Broker × Message × Option ℕ) → Waited
unfolding await
ask_sent host pauses req b none = (b, some (failed no_recipient))
ask_sent host pauses req b (some (b', m, ch)) = await host pauses req m.id b'

unfoldable pub ask : Host → List Pause → Request → Broker → Waited
unfolding ask_sent cannot_ask
ask host pauses req b = elim (cannot_ask host req b) as (λ _. Waited) [
  | some e ↦ (b, some (failed e))
  | none ↦
      ask_sent host pauses req b (send_ask host.env (who_of req) (askee_of host req) req.body b)
]

abbrev replies_of : Option Response → List Response
replies_of none = []
replies_of (some r) = r ∷ []

abbrev pub waited : Waited → Outcome
waited (b, r) = record { broker = b; replies = replies_of r; journaled = []; stops = false }

-- A request that has passed the gate.
unfoldable pub serve : Host → List Pause → Request → Broker → Outcome
serve host pauses req b =
    if same req.op (codes "listen")
    then record {
      broker = (listen host pauses req b).0;
      replies = (listen host pauses req b).1;
      journaled = [];
      stops = false;
    }
    else if same req.op (codes "recv")
    then waited (recv host pauses req b)
    else if same req.op (codes "ask")
    then waited (ask host pauses req b)
    else if same req.op (codes "await")
    then waited (await host pauses req req.thread_id b)
    else dispatch host req b

-- Nobody acts under a name that another live session owns.
unfoldable pub gated : Host → List Pause → Request → Broker × Option Refusal → Outcome
gated host pauses req (b, none) = serve host pauses req b
gated host pauses req (b, some r) = fails b (refused r)

unfoldable pub handle : Host → List Pause → Request → Broker → Outcome
handle host pauses req b =
    if not (well_formed req)
    then fails b bad_control_byte
    else if acts_as_self req.op
    then gated host pauses req (claim_identity host.env (self_of req) req.session req.session_pid b)
    else serve host pauses req b
