-- ===== src/Runs/Reading.antt =====
-- Reading, waiting, the marks and the sweeps keep the state valid.
use mess.Base.{
  ℤ, ℕ, Bool, false, ◌||◌, List, [], ◌∷◌, Text, Option, find, Bool-cases, Option-cases, inl, inr,
  is_empty, any,
}
use mess.Mentions.{is_user_handle}
use mess.Wire.{Message}
use mess.State.{Broker, Env}
use mess.Core.{agent_at, ensure, touch, changed, clear_warn, evict_waiters}
use mess.Presence.{
  is_busy, set_busy, clear_busy, end_session, set_warn, set_state, add_listener, remove_listener,
  watch_evict, unwatch_evict,
}
use mess.Owners.{claim_identity, foreign_live_owner, set_owner}
use mess.Inbox.{
  fire_ack, fire_acks, settle, consume, drain_matching, drain_by, drain_if_idle, drain_quiet,
  wait_chan_by, match_kind,
}
use mess.Runs.Tables.{Distinct-put, either}
use mess.Runs.Helpers.{IsValid, update_agent-IsValid, ensure-IsValid}

fire_acks-IsValid : (ms : List Message) (b : Broker) → IsValid b → IsValid (fire_acks ms b)
unfolding fire_acks fire_ack
fire_acks-IsValid [] b v = v
fire_acks-IsValid (m ∷ ms) b v = fire_acks-IsValid ms (fire_ack m b) v

settle-IsValid :
    (name : Text) (out keep : List Message) (b : Broker)
    → IsValid b
    → IsValid (settle name out keep b)
unfolding settle changed
settle-IsValid name [] keep b v = v
settle-IsValid name (m ∷ ms) keep b v =
    update_agent-IsValid name (consume (m ∷ ms) keep) (fire_acks (m ∷ ms) b)
      (fire_acks-IsValid (m ∷ ms) b v)

module _ (env : Env) (b : Broker) (v : IsValid b) where
  pub drain_by-IsValid :
      (name : Text) (peek : Bool) (max : ℕ) (p : Message → Bool)
      → IsValid (drain_by env name peek max p b).0
  unfolding drain_by drain_matching touch
  drain_by-IsValid name peek max p =
      let here = ensure-IsValid name b v in
      either IsValid peek (touch env name (ensure name b)) _ here
        (settle-IsValid name _ _ (touch env name (ensure name b)) here)

  pub drain_if_idle-IsValid :
      (name : Text) (max : ℕ) (kinds : Option (List Text))
      → IsValid (drain_if_idle env name max kinds b).0
  unfolding drain_if_idle
  drain_if_idle-IsValid name max kinds = elim (Bool-cases (is_busy env name b)) [
    | inl e ↦ rw e v
    | inr e ↦ rw e (drain_by-IsValid name false max (λ m. match_kind m kinds))
  ]

  pub drain_quiet-IsValid : (name : Text) (max : ℕ) → IsValid (drain_quiet name max b).0
  unfolding drain_quiet changed
  drain_quiet-IsValid name max = elim (Option-cases (find name b.agents)) [
    | inl e ↦ rw (drain_quiet, e) v
    | inr (a, e) ↦
        rw (drain_quiet, e)
          (either IsValid _ b _ v (v.0, Distinct-put name _ b.agents v.1, v.2, v.3))
  ]

  pub wait_chan_by-IsValid : (name : Text) (p : Message → Bool) → IsValid (wait_chan_by name p b).0
  unfolding wait_chan_by
  wait_chan_by-IsValid name p =
      let here = ensure-IsValid name b v in
      either IsValid (any p (agent_at name b).inbox) _ _ here (update_agent-IsValid name _ _ here)

  pub claim_identity-IsValid :
      (name session : Text) (pid : ℕ) → IsValid (claim_identity env name session pid b).0
  unfolding claim_identity touch set_owner
  claim_identity-IsValid name session pid =
      elim (Bool-cases (is_empty name || is_empty session || is_user_handle env.logins name)) [
        | inl e ↦ rw e v
        | inr e ↦ elim (Bool-cases (foreign_live_owner env name session b)) [
          | inl f ↦ rw (e, f) v
          | inr f ↦ rw (e, f) (ensure-IsValid name b v)
        ]
      ]

  pub set_busy-IsValid : (name : Text) (dur : ℤ) → IsValid (set_busy env name dur b)
  unfolding set_busy touch clear_warn
  set_busy-IsValid name dur = ensure-IsValid name b v

  pub set_warn-IsValid : (name text : Text) (ttl : ℤ) → IsValid (set_warn env name text ttl b)
  unfolding set_warn touch changed
  set_warn-IsValid name text ttl =
      let here = ensure-IsValid name b v in either IsValid (is_empty text) _ _ here here

  pub set_state-IsValid : (name state : Text) → IsValid (set_state env name state b)
  unfolding set_state touch changed
  set_state-IsValid name state = update_agent-IsValid name (λ a. record a { state = state }) b v

  pub add_listener-IsValid : (name : Text) → IsValid (add_listener env name b)
  unfolding add_listener touch
  add_listener-IsValid name = ensure-IsValid name b v

  -- The operations on the marks alone.
  pub marks-IsValid :
      (name : Text) (ch : ℕ)
      → IsValid (clear_busy env name b)
        × IsValid (end_session env name b)
        × IsValid (remove_listener env name b)
        × IsValid (watch_evict name b).0
        × IsValid (unwatch_evict name ch b)
  unfolding clear_busy end_session evict_waiters remove_listener watch_evict unwatch_evict
  marks-IsValid name ch = (v, v, v, v, v)
