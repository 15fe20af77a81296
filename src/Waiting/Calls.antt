-- ===== src/Waiting/Calls.antt =====
-- What a wait does to the state is a run of calls of the broker.
use mess.Handlers.Mail.{timer_for}
use mess.Presence.{watch_evict, add_listener}
use mess.Base.{ℕ, Text, is_positive, ℤ, List, [], ◌∷◌, Option, none, some}
use mess.State.{Broker, Env}
use mess.Runs.{Call, step, run}
use mess.Runs.Tables.{either}
use mess.Runs.Reaches.{AllCalls, Reaches, nowhere, onward, by_step, by_run, Reaches-trans}
use mess.Waiting.{
  Pause, Wait, Waited, ending, cut_short, take_mail, finish, parked, unpark, park_and_drain,
}

-- The functions that a wait is handed are calls of the broker themselves.
pub record IsCalling (P : Call → Type 0) (w : Wait) : Type 0 where
  pub wakes_by_calls : (b : Broker) → Reaches P b (w.wake_chan b).0
  pub drains_by_calls : (env : Env) (b : Broker) → Reaches P b (w.drain env b).0

-- The marks of a wait of this agent.
pub record IsParking (P : Call → Type 0) (who : Text) : Type 0 where
  pub listening : P (Call.listens who)
  pub watching : P (Call.watches who)
  pub unwatching : (ch : ℕ) → P (Call.unwatches who ch)
  pub stopping : P (Call.stops_listening who)

-- P holds of all calls that are made in these pauses.
abbrev pub AllPauses : (Call → Type 0) → List Pause → Type 0
AllPauses P [] = Unit
AllPauses P (p ∷ ps) = AllCalls P p.calls × AllPauses P ps

-- A state that is reached with an answer or without.
abbrev pub Reached : (Call → Type 0) → Broker → Waited → Type 0
Reached P b o = Reaches P b o.0

pub reply_way :
    {A : Type 0} {P : Call → Type 0} (o : Option A) {b : Broker} (f : Waited) (g : A → Waited)
    → Reached P b f
    → ((r : A) → Reached P b (g r))
    → Reached P b (elim o as (λ _. Waited) [ none ↦ f | some r ↦ g r ])
reply_way none f g h k = h
reply_way (some r) f g h k = k r

module _ {P : Call → Type 0} (w : Wait) (c : IsCalling P w) (batch : ℤ) where
  finish_calls :
      (env : Env) (ps : List Pause)
      → AllPauses P ps
      → (b : Broker) → Reached P b (finish w batch env ps b)
  unfolding finish take_mail
  finish_calls env [] all b =
      either (Reached P b) (is_positive batch) _ _ nowhere (c.drains_by_calls env b)
  finish_calls env (p ∷ ps) (here_all, all) b =
      let here = by_run p.calls here_all b in
      either (Reached P b) (is_positive batch) _ _
        (reply_way (cut_short p.waking) _ _
          (Reaches-trans here (c.drains_by_calls p.env (run p.calls b))) (λ r. here))
        (c.drains_by_calls env b)

  parked_calls :
      (ps : List Pause) → AllPauses P ps → (b : Broker) → Reached P b (parked w batch ps b)
  unfolding parked
  parked_calls [] all b = c.wakes_by_calls b
  parked_calls (p ∷ ps) (here_all, all) b =
      let b' = run p.calls (w.wake_chan b).0 in
      let here = Reaches-trans (c.wakes_by_calls b) (by_run p.calls here_all (w.wake_chan b).0) in
      reply_way (ending p.waking) _ _
        (either (Reached P b) (w.has_mail b') _ _
          (Reaches-trans here (finish_calls p.env ps all b'))
          (Reaches-trans here (parked_calls ps all b')))
        (λ r. here)

  unpark_calls :
      (env : Env) (who : Text) (marks : IsParking P who) (ch : ℕ) (b : Broker) (o : Waited)
      → Reached P b o
      → Reached P b (unpark w batch env who ch o)
  unfolding unpark step
  unpark_calls env who marks ch b (b', none) h = h
  unpark_calls env who marks ch b (b', some r) h = Reaches-trans h (
      onward env (Call.unwatches who ch) (marks.unwatching ch)
        (by_step env (Call.stops_listening who) marks.stopping _))

  pub park_and_drain_calls :
      (env : Env) (who spec : Text)
      → IsParking P who
      → (pauses : List Pause) → AllPauses P pauses
      → (b : Broker) → Reached P b (park_and_drain w batch env who spec pauses b)
  unfolding park_and_drain step
  park_and_drain_calls env who spec marks pauses all b =
      let b1 = add_listener env who b in
      let watched : Reaches P b (watch_evict who b1).0 =
        onward env (Call.listens who) marks.listening
          (by_step env (Call.watches who) marks.watching b1) in
      either (Reached P b) (w.has_mail b) _ _ (finish_calls env pauses all b) (
        reply_way (timer_for spec) _ _ nowhere (λ t.
          unpark_calls env who marks _ b _
            (Reaches-trans watched (parked_calls pauses all (watch_evict who b1).0))))
