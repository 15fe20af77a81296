-- ===== src/Serve/Valid.antt =====
-- The daemon as a whole: whatever it is asked, it only calls the broker, and in the name of who asks.
use mess.Dispatch.Refines.{dispatch_calls}
use mess.Listening.Calls.{listen_calls}
use mess.Asks.{drain_answers, send_ask}
use mess.Owners.{Refusal}
use mess.Dispatch.Calling.{either_way}
use mess.Waiting.{park_and_drain, batch_of, Waited, Pause}
use mess.Wire.{Message}
use mess.Handlers.{Host}
use mess.Requests.{self_of, acts_as_self, kind_set, well_formed, who_of, Request}
use mess.Inbox.{in_thread, match_kind, wakes, drain_thread, drain_kinds, wait_chan}
use mess.Dispatch.Own.{May, others_May}
use mess.Runs.Reaches.{AllCalls}
use mess.Base.{
  inl, refl, ◌∷◌, ◌&&◌, if◌then◌else◌, codes, same, ℕ, not, is_empty, Text, Bool, true, false, List,
  [], Option, none, some,
}
use mess.State.{Broker, Env}
use mess.Runs.{after_send, Call, step}
use mess.Dispatch.Own.{May, others_May}
use mess.Runs.Reaches.{AllCalls, Reaches, nowhere, by_step, Reaches-trans}
use mess.Listening.Calls.{IsStreaming}
use mess.Waiting.Calls.{IsParking, AllPauses, reply_way, IsCalling, Reached, park_and_drain_calls}
use mess.Serve.{
  at_once, askee_of, cannot_ask, answer_wait, recv_wait, with_token, unless_busy, recv, await,
  ask_sent, ask, serve, gated, handle,
}

-- A wait does not read the clock.
abbrev no_env : Env
no_env = record { now = 0; probe_comm = λ pid. []; logins = [] }

waited_way :
    {P : Call → Type 0} (c : Bool) {b : Broker} (o p : Waited)
    → Reached P b o
    → Reached P b p
    → Reached P b (if c then o else p)
waited_way true o p h k = h
waited_way false o p h k = k

busy_calls :
    {P : Call → Type 0} (b : Broker) (r : Broker × List Message × Bool)
    → Reaches P b r.0
    → Reached P b (unless_busy r)
unfolding unless_busy
busy_calls b (b', ms, true) h = h
busy_calls b (b', ms, false) h = h

token_calls :
    {P : Call → Type 0} (token : Text) (b : Broker) (o : Waited)
    → Reached P b o
    → Reached P b (with_token token o)
unfolding with_token
token_calls token b (b', none) h = h
token_calls token b (b', some r) h = h

module _ (others : Call → Type 0) (host : Host) (pauses : List Pause) (req : Request)
    (all : AllCalls others host.meanwhile) (paused : AllPauses others pauses) where
  abbrev P : Call → Type 0
  P = May others host req

  pauses_May : (ps : List Pause) → AllPauses others ps → AllPauses P ps
  pauses_May [] all = tt
  pauses_May (p ∷ ps) (here, all) = (others_May others host req p.calls here, pauses_May ps all)

  parking : IsParking P (who_of req)
  parking = record {
    listening = inl refl;
    watching = inl refl;
    unwatching = λ ch. inl refl;
    stopping = inl refl;
  }

  streaming : IsStreaming P (who_of req)
  streaming = record {
    listening = inl refl;
    stopping = inl refl;
    reading = λ peek max p. inl refl;
    waiting = λ p. inl refl;
  }

  recv_wait-IsCalling : IsCalling P (recv_wait req)
  unfolding wait_chan drain_kinds step
  recv_wait-IsCalling = record {
    wakes_by_calls = λ b.
        by_step no_env (Call.waits (who_of req) (λ m. wakes m (kind_set req.kinds))) (inl refl) b;
    drains_by_calls = λ env b.
        by_step env (Call.reads (who_of req) req.peek req.max (λ m. match_kind m none)) (inl refl)
          b;
  }

  answer_wait-IsCalling : (token : Text) → IsCalling P (answer_wait req token)
  unfolding step
  answer_wait-IsCalling token = record {
    wakes_by_calls = λ b. by_step no_env (Call.waits_answer (who_of req) token) (inl refl) b;
    drains_by_calls =
        λ env b. by_step env (Call.reads_answers (who_of req) token req.peek req.max) (inl refl) b;
  }

  recv_calls : (b : Broker) → Reached P b (recv host pauses req b)
  unfolding recv drain_thread drain_kinds step
  recv_calls b =
      waited_way (not req.wait && not (is_empty req.thread_id)) _ _
        (by_step host.env (Call.reads (who_of req) req.peek req.max (in_thread req.thread_id))
          (inl refl) b)
        (waited_way (not req.wait && req.if_idle) _ _
          (busy_calls b _ (
            by_step host.env (Call.reads_if_idle (who_of req) req.max (kind_set req.kinds))
              (inl refl) b))
          (waited_way (not req.wait) _ _
            (by_step host.env
              (Call.reads (who_of req) req.peek req.max (λ m. match_kind m (kind_set req.kinds)))
              (inl refl) b)
            (park_and_drain_calls (recv_wait req) recv_wait-IsCalling (batch_of req) host.env
              (who_of req) req.timeout parking pauses (pauses_May pauses paused) b)))

  await_calls : (token : Text) (b : Broker) → Reached P b (await host pauses req token b)
  unfolding await step
  await_calls token b = waited_way (is_empty token) _ _ nowhere (
      waited_way (not req.wait) _ _
        (token_calls token b
          (at_once (drain_answers host.env (who_of req) token req.peek req.max b))
          (by_step host.env (Call.reads_answers (who_of req) token req.peek req.max) (inl refl) b))
        (token_calls token b
          (park_and_drain (answer_wait req token) (batch_of req) host.env (who_of req) req.timeout
            pauses b)
          (park_and_drain_calls (answer_wait req token) (answer_wait-IsCalling token) (batch_of req)
            host.env (who_of req) req.timeout parking pauses (pauses_May pauses paused) b)))

  ask_sent_calls :
      (b : Broker) (o : Option (Broker × Message × Option ℕ))
      → Reaches P b (after_send b o)
      → Reached P b (ask_sent host pauses req b o)
  unfolding ask_sent after_send
  ask_sent_calls b none h = nowhere
  ask_sent_calls b (some (b', m, ch)) h = Reaches-trans h (await_calls m.id b')

  ask_calls : (b : Broker) → Reached P b (ask host pauses req b)
  unfolding ask step
  ask_calls b =
      reply_way (cannot_ask host req b) _ _
        (ask_sent_calls b (send_ask host.env (who_of req) (askee_of host req) req.body b) (
          by_step host.env (Call.asks (who_of req) (askee_of host req) req.body) (inl (refl, refl))
            b))
        (λ e. nowhere)

  serve_calls : (b : Broker) → Reaches P b (serve host pauses req b).broker
  unfolding serve
  serve_calls b =
      either_way (same req.op (codes "listen")) _ _
        (listen_calls host pauses (pauses_May pauses paused) req streaming b)
        (either_way (same req.op (codes "recv")) _ _ (recv_calls b) (
          either_way (same req.op (codes "ask")) _ _ (ask_calls b) (
            either_way (same req.op (codes "await")) _ _ (await_calls req.thread_id b)
              (dispatch_calls others host req all b))))

  gated_calls :
      (b : Broker) (r : Broker × Option Refusal)
      → Reaches P b r.0
      → Reaches P b (gated host pauses req r).broker
  unfolding gated
  gated_calls b (b', none) h = Reaches-trans h (serve_calls b')
  gated_calls b (b', some r) h = h

  -- Whatever a request asks for, the state that the daemon is left in is one that a sequence of calls of
  -- the broker's methods leads to, each of them either the request's own or one with whatever property
  -- all calls have that other clients make while the request waits. A call of its own that sends,
  -- broadcasts, publishes, invites or declines is made by its sender as it stands in its own room, with
  -- the recipient, the body or the token that the request names; `ask` and what reads mail, waits or sets
  -- a mark, by that name in the room that is addressed. What it registers, renames, moves into a room or
  -- subscribes goes by one of these keys. What it removes is the sender or the agent it names, what it
  -- redeems its own token, what it tears down the bridge it names, and mail expires only if the request
  -- is no dry run. How a bridge is created is left open.
  pub handle_calls : (b : Broker) → Reaches P b (handle host pauses req b).broker
  unfolding handle step
  handle_calls b = either_way (not (well_formed req)) _ _ nowhere (
      either_way (acts_as_self req.op) _ _
        (gated_calls b _
          (by_step host.env (Call.claims (self_of req) req.session req.session_pid) (inl refl) b))
        (serve_calls b))

-- The state after these requests, one behind the other, each with what happens while it waits.
pub served : List (Host × List Pause × Request) → Broker → Broker
served [] b = b
served ((host, pauses, req) ∷ requests) b = served requests (handle host pauses req b).broker
