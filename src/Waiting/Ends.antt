-- ===== src/Waiting/Ends.antt =====
-- A parked wait ends, and what it answers.
use mess.Handlers.Mail.{timer_for}
use mess.Runs.{run}
use mess.Runs.Tables.{either}
use mess.Wire.{Message}
use mess.Base.{
  ℕ, arith, Text, inl, is_positive, inr, not, ℤ, length, ◌≡◌, refl, Bool, true, false, List, [],
  ◌∷◌, Option, none, some, any, is_some, ◌⊎◌,
}
use mess.State.{Broker, Env}
use mess.Replies.{invalid_timeout, failed, Response, Reason}
use mess.Waiting.{
  Waking, Pause, Wait, Waited, ending, cut_short, woken_with, take_mail, finish, parked, unpark,
  park_and_drain,
}

-- What ends a wait for certain: all but a delivery, which another wait may have taken.
abbrev pub is_last : Waking → Bool
is_last Waking.delivery = false
is_last Waking.eviction = true
is_last Waking.timeout = true
is_last Waking.disconnect = true
is_last Waking.shutdown = true

abbrev pub is_final : Pause → Bool
is_final p = is_last p.waking

abbrev has_reason : Reason → Bool
has_reason Reason.no_reason = false
has_reason _ = true

abbrev has_messages : List Message → Bool
has_messages [] = false
has_messages (m ∷ ms) = true

-- An answer that is no error has messages, all of them counted, or else a reason.
abbrev pub Explained : Response → Type 0
Explained r =
    (is_some r.error ≡ true)
    ⊎ ((r.count ≡ length r.messages) × (has_reason r.reason ≡ not (has_messages r.messages)))

-- There is an answer, and it explains itself.
abbrev pub Answered : Waited → Type 0
Answered (b, none) = ⊥
Answered (b, some r) = Explained r

woken_with-Explained : (ms : List Message) → Explained (woken_with ms)
unfolding woken_with
woken_with-Explained [] = inr (refl, refl)
woken_with-Explained (m ∷ ms) = inr (refl, refl)

timed_answers :
    (t : Option (Option ℤ)) (b : Broker) (o : Waited) (r : Response)
    → is_some r.error ≡ true
    → Answered o
    → Answered (elim t as (λ _. Waited) [ none ↦ (b, some r) | some _ ↦ o ])
timed_answers none b o r e h = inl e
timed_answers (some t) b o r e h = h

module _ (w : Wait) (batch : ℤ) where
  cut_answers :
      (waking : Waking) (env : Env) (b : Broker)
      → Answered (elim (cut_short waking) as (λ _. Waited) [
        | none ↦ take_mail w batch env b
        | some r ↦ (b, some r)
      ])
  unfolding cut_short take_mail
  cut_answers Waking.delivery env b = woken_with-Explained (w.drain env b).1
  cut_answers Waking.eviction env b = woken_with-Explained (w.drain env b).1
  cut_answers Waking.timeout env b = woken_with-Explained (w.drain env b).1
  cut_answers Waking.disconnect env b = inl refl
  cut_answers Waking.shutdown env b = inl refl

  finish_answers :
      (env : Env) (ps : List Pause) (b : Broker)
      → any is_final ps ≡ true
      → Answered (finish w batch env ps b)
  unfolding finish take_mail any
  finish_answers env [] b h = cc
  finish_answers env (p ∷ ps) b h =
      either Answered (is_positive batch) _ _ (cut_answers p.waking p.env (run p.calls b))
        (woken_with-Explained (w.drain env b).1)

  ended_answers :
      (waking : Waking) (b : Broker) (o : Waited)
      → (is_last waking ≡ false → Answered o)
      → Answered (elim (ending waking) as (λ _. Waited) [ some r ↦ (b, some r) | none ↦ o ])
  unfolding ending
  ended_answers Waking.delivery b o h = h refl
  ended_answers Waking.eviction b o h = inr (refl, refl)
  ended_answers Waking.timeout b o h = inr (refl, refl)
  ended_answers Waking.disconnect b o h = inl refl
  ended_answers Waking.shutdown b o h = inl refl

  parked_answers :
      (ps : List Pause) (b : Broker) → any is_final ps ≡ true → Answered (parked w batch ps b)
  unfolding parked any
  parked_answers [] b h = cc
  parked_answers (p ∷ ps) b h =
      let b' = run p.calls (w.wake_chan b).0 in
      ended_answers p.waking b' _ (λ e.
        either Answered (w.has_mail b') _ _ (finish_answers p.env ps b' (ground (arith, e, h)))
          (parked_answers ps b' (ground (arith, e, h))))

  unpark_answers :
      (env : Env) (who : Text) (ch : ℕ) (o : Waited)
      → Answered o
      → Answered (unpark w batch env who ch o)
  unfolding unpark
  unpark_answers env who ch (b, none) h = h
  unpark_answers env who ch (b, some r) h = h

  -- A parked wait ends, at the latest, when the client leaves, the daemon stops, the time is up or the
  -- name is removed, whatever other clients do meanwhile. Its answer is an error, or it has messages,
  -- all of them counted, and no reason, or it has no messages and the reason why.
  pub park_and_drain_lem :
      (env : Env) (who spec : Text) (pauses : List Pause) (b : Broker)
      → any is_final pauses ≡ true
      → Answered (park_and_drain w batch env who spec pauses b)
  unfolding park_and_drain
  park_and_drain_lem env who spec pauses b h =
      either Answered (w.has_mail b) _ _ (finish_answers env pauses b h) (
        timed_answers (timer_for spec) b _ (failed (invalid_timeout spec)) refl
          (unpark_answers env who _ _ (parked_answers pauses _ h)))
