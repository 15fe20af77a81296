-- ===== src/Runs/Operations.antt =====
-- Each operation of the broker keeps the state valid.
use mess.Base.{
  keys_of, ℕ, ◌≡◌, refl, Bool, ◌&&◌, not, [], ◌∷◌, if◌then◌else◌, Text, same, or_zero, add, remove,
  Distinct, Option, none, some, Map, find, put, delete, is_empty, Bool-cases, inl, inr, ap, sym,
  subst,
}
use mess.Rooms.{bare}
use mess.Wire.{Message}
use mess.State.{Agent, Broker, Env}
use mess.Core.{update_agent, touch, changed, next_id, deliver_to, clear_warn}
use mess.Owners.{
  set_owner, register, register_owned, rename, join_room, migrate, remove_agent,
  remove_agent_locked, foreign_live_owner,
}
use mess.Direct.{Extras, track_if_threaded, direct_message, send, broadcast, broadcast_agents}
use mess.Topics.{subscribe, unsubscribe}
use mess.Runs.Tables.{
  Distinct-put, Distinct-add, Distinct-remove, Sets, Sets-find, Sets-put, Sets-delete, either,
}
use mess.Runs.Helpers.{
  IsValid, ensure-IsValid, deliver_to-IsValid, remove_agent_locked-IsValid, migrate-IsValid,
  track_if_threaded-IsValid, open_ack-IsValid,
}

-- What a send leaves, if there was a recipient.
abbrev pub SendIsValid : Option (Broker × Message × Option ℕ) → Type 0
SendIsValid none = Unit {0}
SendIsValid (some (b, m, ch)) = IsValid b

keys_of-broadcast_agents :
    (from room : Text) (host_wide : Bool) (m : Message) (agents : Map Agent)
    → keys_of (broadcast_agents from room host_wide m agents) ≡ keys_of agents
unfolding broadcast_agents
keys_of-broadcast_agents from room host_wide m [] = refl
keys_of-broadcast_agents from room host_wide m ((k, a) ∷ agents) =
    ap (◌∷◌ k) (keys_of-broadcast_agents from room host_wide m agents)

module _ (env : Env) (b : Broker) (v : IsValid b) where
  pub register-IsValid : (name : Text) → IsValid (register env name b)
  unfolding register touch changed
  register-IsValid name = ensure-IsValid name b v

  pub register_owned-IsValid :
      (name session : Text) (pid : ℕ) (force : Bool)
      → IsValid (register_owned env name session pid force b).0
  unfolding register_owned touch changed clear_warn set_owner
  register_owned-IsValid name session pid force =
      elim (Bool-cases (not force && foreign_live_owner env name session b)) [
        | inl e ↦ rw e v
        | inr e ↦ rw e (ensure-IsValid name b v)
      ]

  pub rename-IsValid :
      (old new session : Text) (pid : ℕ) (force : Bool)
      → IsValid (rename env old new session pid force b).0
  unfolding rename touch changed set_owner
  rename-IsValid old new session pid force = elim (Bool-cases (is_empty new)) [
    | inl e ↦ rw e v
    | inr e ↦ elim (Bool-cases (same old new)) [
      | inl f ↦ rw (e, f) (ensure-IsValid new b v)
      | inr f ↦ elim (Bool-cases (not force && foreign_live_owner env new session b)) [
        | inl g ↦ rw (e, f, g) v
        | inr g ↦ rw (e, f, g) (migrate-IsValid old new b v)
      ]
    ]
  ]

  pub join_room-IsValid :
      (from who session : Text) (pid : ℕ) (force : Bool)
      → IsValid (join_room env from who session pid force b).0
  unfolding join_room touch changed set_owner
  join_room-IsValid from who session pid force =
      elim (Bool-cases (not force && foreign_live_owner env who session b)) [
        | inl e ↦ rw e v
        | inr e ↦ rw e (
            ensure-IsValid who (if same from who then b else migrate from who b) (
              either IsValid (same from who) b (migrate from who b) v
                (migrate-IsValid from who b v)))
      ]

  pub remove_agent-IsValid : (name : Text) → IsValid (remove_agent name b).0
  unfolding remove_agent changed
  remove_agent-IsValid name = elim (Bool-cases (remove_agent_locked name b).1) [
    | inl e ↦ rw e (remove_agent_locked-IsValid name b v)
    | inr e ↦ rw e v
  ]

  pub subscribe-IsValid : (name topic : Text) → IsValid (subscribe env name topic b)
  unfolding subscribe touch changed update_agent
  subscribe-IsValid name topic =
      let subs = or_zero [] (find topic b.topics) in
      (
        Sets-put topic (add name subs) b.topics
            (Distinct-add name subs (Sets-find topic b.topics v.0)) v.0,
        Distinct-put name _ b.agents v.1,
        v.2,
        v.3,
      )

  pub unsubscribe-IsValid : (name topic : Text) → IsValid (unsubscribe env name topic b)
  unfolding unsubscribe touch changed
  unsubscribe-IsValid name topic =
      let subs = or_zero [] (find topic b.topics) in
      (
        either Sets _ (delete topic b.topics) (put topic (remove name subs) b.topics)
            (Sets-delete topic b.topics v.0)
            (Sets-put topic (remove name subs) b.topics
              (Distinct-remove name subs (Sets-find topic b.topics v.0)) v.0),
        agents_kept (find name b.agents),
        v.2,
        v.3,
      )
    where
      agents_kept :
          (o : Option Agent)
          → Distinct (
              keys_of (elim o as (λ _. Map Agent) [
                | none ↦ b.agents
                | some a ↦ put name (record a { topics = remove (bare topic) a.topics }) b.agents
              ]))
      agents_kept none = v.1
      agents_kept (some a) = Distinct-put name _ b.agents v.1

  pub send-IsValid : (from to body : Text) (x : Extras) → SendIsValid (send env from to body x b)
  unfolding send changed
  send-IsValid from to body x =
      let m = direct_message env.now (next_id b).1 from to body x in
      let b2 = track_if_threaded x.thread_id from (touch env from (next_id b).0) in
      elim (Bool-cases (is_empty to)) [
        | inl e ↦ rw (send, e) tt
        | inr e ↦
            rw (send, e)
              (open_ack-IsValid x.ack (next_id b).1 (deliver_to to m b2) (
                deliver_to-IsValid to m b2 (
                  track_if_threaded-IsValid x.thread_id from (touch env from (next_id b).0)
                    (unfold touch next_id in v))))
      ]

  pub broadcast-IsValid :
      (from room body : Text) (loud host_wide : Bool)
      → IsValid (broadcast env from room body loud host_wide b).0
  unfolding broadcast touch changed next_id
  broadcast-IsValid from room body loud host_wide = (
    v.0,
    subst Distinct (sym (keys_of-broadcast_agents from room host_wide _ b.agents)) v.1,
    v.2,
    v.3,
  )
