-- ===== src/Sweeps/Expiry.antt =====
-- Mail that expires: what is dropped, what stays, and what a dry run tells.
use mess.Rooms.{bare}
use mathlib.Core.List.{Perm, perm_middle}
use mathlib.Core.List.Perm
use mess.Base.{
  same, add_int, ltb, if◌then◌else◌, ℤ, ◌≡◌, refl, Bool, true, false, not, List, [], ◌∷◌, ◌++◌,
  arith, Bool-cases, inl, inr, Text, or_zero, Map, find, select, All,
}
use mess.Wire.{Message}
use mess.State.{Agent, Broker, Env}
use mess.Core.{agent_at, changed, new_agent}
use mess.Mentions.{is_user_handle}
use mess.Sweeps.{
  too_old, overdue, without_overdue, all_overdue, drop_overdue, save_expired, expire_inbox,
}

-- The unread mail of all agents.
abbrev pub mail : Map Agent → List Message
mail [] = []
mail ((key, a) ∷ agents) = a.inbox ++ mail agents

set_aside : (xs z g r : List Message) → Perm z (g ++ r) → Perm (xs ++ z) (g ++ (xs ++ r))
set_aside [] z g r h = h
set_aside (x ∷ xs) z g r h =
    Perm.trans (Perm.cons x (set_aside xs z g r h)) (Perm.symm (perm_middle g (xs ++ r)))

weave :
    (p : Message → Bool) (xs z g r : List Message)
    → Perm z (g ++ r)
    → Perm (xs ++ z) ((select p xs ++ g) ++ (select (λ m. not (p m)) xs ++ r))
unfolding select
weave p [] z g r h = h
weave p (x ∷ xs) z g r h = elim (Bool-cases (p x)) [
  | inl e ↦ rw e (Perm.cons x (weave p xs z g r h))
  | inr e ↦ rw e (
      Perm.trans (Perm.cons x (weave p xs z g r h))
        (Perm.symm (perm_middle (select p xs ++ g) (select (λ m. not (p m)) xs ++ r))))
]

select-All : (p : Message → Bool) (xs : List Message) → All (λ m. p m ≡ true) (select p xs)
unfolding select
select-All p [] = tt
select-All p (x ∷ xs) = elim (Bool-cases (p x)) [
  | inl e ↦ rw e (e, select-All p xs)
  | inr e ↦ rw e (select-All p xs)
]

select-none : (p : Message → Bool) (xs : List Message) → select p (select (λ m. not (p m)) xs) ≡ []
unfolding select
select-none p [] = refl
select-none p (x ∷ xs) = elim (Bool-cases (p x)) [
  | inl e ↦ rw e (select-none p xs)
  | inr e ↦ rw (e, e) (select-none p xs)
]

All-append : (P : Message → Type 0) (xs ys : List Message) → All P xs → All P ys → All P (xs ++ ys)
All-append P [] ys h k = k
All-append P (x ∷ xs) ys (px, h) k = (px, All-append P xs ys h k)

module _ (env : Env) (max_age : ℤ) where
  abbrev old : Message → Bool
  old m = too_old env max_age m.time

  drop_overdue-perm :
      (agents : Map Agent)
      → Perm
          (mail agents)
          (all_overdue env max_age agents ++ mail (drop_overdue env max_age agents))
  unfolding all_overdue drop_overdue overdue without_overdue
  drop_overdue-perm [] = Perm.refl []
  drop_overdue-perm ((key, a) ∷ agents) = elim (Bool-cases (is_user_handle env.logins a.name)) [
    | inl e ↦ rw e (set_aside a.inbox _ _ _ (drop_overdue-perm agents))
    | inr e ↦ rw e (weave old a.inbox _ _ _ (drop_overdue-perm agents))
  ]

  overdue-old : (agents : Map Agent) → All (λ m. old m ≡ true) (all_overdue env max_age agents)
  unfolding all_overdue overdue
  overdue-old [] = tt
  overdue-old ((key, a) ∷ agents) = elim (Bool-cases (is_user_handle env.logins a.name)) [
    | inl e ↦ rw e (overdue-old agents)
    | inr e ↦
        rw e (All-append (λ m. old m ≡ true) _ _ (select-All old a.inbox) (overdue-old agents))
  ]

  nothing_left :
      (agents : Map Agent) → all_overdue env max_age (drop_overdue env max_age agents) ≡ []
  unfolding all_overdue drop_overdue overdue without_overdue
  nothing_left [] = refl
  nothing_left ((key, a) ∷ agents) = elim (Bool-cases (is_user_handle env.logins a.name)) [
    | inl e ↦ rw e (nothing_left agents)
    | inr e ↦ rw (e, select-none old a.inbox) (nothing_left agents)
  ]

  user_same :
      (a : Agent) → is_user_handle env.logins a.name ≡ true → without_overdue env max_age a ≡ a
  unfolding without_overdue
  user_same a h = rw h refl

  user_kept :
      (k : Text) (agents : Map Agent)
      → is_user_handle env.logins (or_zero (new_agent k) (find k agents)).name ≡ true
      → or_zero (new_agent k) (find k (drop_overdue env max_age agents))
        ≡ or_zero (new_agent k) (find k agents)
  unfolding drop_overdue find
  user_kept k [] h = refl
  user_kept k ((j, a) ∷ agents) h = ground (arith, user_kept k agents, user_same a)

  -- The unread mail that is left of an agent.
  abbrev pub in_time : Agent → List Message
  in_time a =
      if is_user_handle env.logins a.name
      then a.inbox
      else select (λ (m : Message). not (ltb (add_int m.time max_age) env.now)) a.inbox

  inbox-drop_overdue :
      (k : Text) (agents : Map Agent)
      → (or_zero (new_agent k) (find k (drop_overdue env max_age agents))).inbox
        ≡ in_time (or_zero (new_agent k) (find k agents))
  unfolding drop_overdue without_overdue too_old find select new_agent
  inbox-drop_overdue k [] = elim (Bool-cases (is_user_handle env.logins (bare k))) [
    | inl e ↦ rw e refl
    | inr e ↦ rw e refl
  ]
  inbox-drop_overdue k ((j, a) ∷ agents) = elim (Bool-cases (same j k)) [
    | inl e ↦ rw e refl
    | inr e ↦ rw e (inbox-drop_overdue k agents)
  ]

  save_expired-agents : (gone : List Message) (b : Broker) → (save_expired gone b).agents ≡ b.agents
  unfolding save_expired changed
  save_expired-agents [] b = refl
  save_expired-agents (m ∷ ms) b = refl

  -- Expiring mail leaves each agent the unread messages that are not older than the limit, in their
  -- order, and drops the others: those returned and those left are together the mail there was, none
  -- lost and none doubled; all those returned are older than the limit, and a second run at once finds
  -- none. A mailbox of the human is not touched. A dry run returns the same
  -- messages and changes nothing.
  pub expire_inbox_lem :
      (b : Broker)
      → Perm
          (mail b.agents)
          ((expire_inbox env max_age false b).1 ++ mail (expire_inbox env max_age false b).0.agents)
        × All
            (λ m. ltb (add_int m.time max_age) env.now ≡ true)
            (expire_inbox env max_age false b).1
        × ((k : Text)
            → (agent_at k (expire_inbox env max_age false b).0).inbox ≡ in_time (agent_at k b))
        × ((expire_inbox env max_age false (expire_inbox env max_age false b).0).1 ≡ [])
        × ((k : Text)
            → is_user_handle env.logins (agent_at k b).name ≡ true
            → agent_at k (expire_inbox env max_age false b).0 ≡ agent_at k b)
        × (expire_inbox env max_age true b ≡ (b, (expire_inbox env max_age false b).1))
  unfolding expire_inbox agent_at too_old
  expire_inbox_lem b =
      let gone = all_overdue env max_age b.agents in
      let same_agents =
        save_expired-agents gone (record b { agents = drop_overdue env max_age b.agents }) in
      (
        rw same_agents (drop_overdue-perm b.agents),
        overdue-old b.agents,
        λ k. rw same_agents (inbox-drop_overdue k b.agents),
        rw same_agents (nothing_left b.agents),
        λ k h. rw same_agents (user_kept k b.agents h),
        refl,
      )
