-- ===== src/Waiting.antt =====
-- daemon.go: parkAndDrain and the requests that wait by it, `recv` and `ask`/`await`. A wait is told
-- what happens while it is parked: a list of pauses, each with the calls that other clients make
-- meanwhile and with what then wakes the wait. It is still parked when the list is at its end.
pub mod Ends
pub mod Calls
use mess.Base.{
  ℕ, Text, Bool, true, false, not, List, [], ◌∷◌, Option, none, some, is_empty, length, ◌==◌, ℤ,
  pos, is_positive, or_zero, if◌then◌else◌,
}
use mess.Wire.{Message}
use mess.State.{Broker, Env}
use mess.Presence.{add_listener, remove_listener, watch_evict, unwatch_evict}
use mess.Inbox.{drain_kinds, drain_thread, drain_if_idle, has_pending, wait_chan}
use mess.Asks.{send_ask, has_pending_answer, wait_chan_answer, drain_answers}
use mess.Durations.{parse_duration}
use mess.Requests.{Request, who_of, kind_set}
use mess.Replies.{
  Response, Reason, raced, timed_out, evicted, done, failed, client_gone, shutting_down,
  invalid_timeout,
}
use mess.Runs.{Call, run}
use mess.Handlers.{Host}
use mess.Handlers.Mail.{timer_for}
use mess.Handlers.Reading.{listed}

-- time.ParseDuration with its error ignored.
abbrev pub batch_of : Request → ℤ
batch_of req = or_zero (pos 0) (parse_duration req.batch)

pub data Waking : Type 0 where
  delivery eviction timeout disconnect shutdown : Waking

pub record Pause : Type 0 where
  pub calls : List (Env × Call)
  pub env : Env
  pub waking : Waking

-- The functions that parkAndDrain is handed.
pub record Wait : Type 0 where
  pub has_mail : Broker → Bool
  pub wake_chan : Broker → Broker × ℕ
  pub drain : Env → Broker → Broker × List Message

-- The state, and the answer of a wait that has ended.
abbrev pub Waited : Type 0
Waited = Broker × Option Response

-- A wait that woke to an inbox that another one had emptied says so.
unfoldable pub woken_with : List Message → Response
woken_with [] = record done { reason = raced }
woken_with (m ∷ ms) = listed (m ∷ ms)

-- What a pause ends a wait with, if it is no delivery.
unfoldable pub ending : Waking → Option Response
ending delivery = none
ending eviction = some (record done { reason = evicted })
ending timeout = some (record done { reason = timed_out })
ending disconnect = some (failed client_gone)
ending shutdown = some (failed shutting_down)

-- What can end the window in which a burst is gathered.
unfoldable pub cut_short : Waking → Option Response
cut_short disconnect = some (failed client_gone)
cut_short shutdown = some (failed shutting_down)
cut_short _ = none

module _ (w : Wait) (batch : ℤ) where
  unfoldable pub take_mail : Env → Broker → Waited
  unfolding woken_with
  take_mail env b = let (b', ms) = w.drain env b in (b', some (woken_with ms))

  -- `finish`, with the window as the first of the pauses that are left.
  unfoldable pub finish : Env → List Pause → Broker → Waited
  unfolding take_mail cut_short
  finish env [] b = if is_positive batch then (b, none) else take_mail env b
  finish env (p ∷ ps) b =
      let b' = run p.calls b in
      if is_positive batch
      then elim (cut_short p.waking) as (λ _. Waited) [
        | none ↦ take_mail p.env b'
        | some r ↦ (b', some r)
      ]
      else take_mail env b

  -- The loop of a parked wait.
  unfoldable pub parked : List Pause → Broker → Waited
  unfolding finish ending
  parked [] b = ((w.wake_chan b).0, none)
  parked (p ∷ ps) b =
      let b' = run p.calls (w.wake_chan b).0 in
      let again = parked ps b' in
      elim (ending p.waking) as (λ _. Waited) [
        | some r ↦ (b', some r)
        | none ↦ if w.has_mail b' then finish p.env ps b' else again
      ]

  -- What is deferred to the return.
  unfoldable pub unpark : Env → Text → ℕ → Waited → Waited
  unpark env who ch (b, none) = (b, none)
  unpark env who ch (b, some r) = (remove_listener env who (unwatch_evict who ch b), some r)

  unfoldable pub park_and_drain : Env → Text → Text → List Pause → Broker → Waited
  unfolding finish parked unpark
  park_and_drain env who spec pauses b =
      let (b', ch) = watch_evict who (add_listener env who b) in
      if w.has_mail b then finish env pauses b else elim (timer_for spec) as (λ _. Waited) [
        | none ↦ (b, some (failed (invalid_timeout spec)))
        | some t ↦ unpark env who ch (parked pauses b')
      ]
