-- ===== src/Daemon/Durable.antt =====
-- What the journal knows of the mail that is dropped.
use mathlib.Core.List.{Sublist}
use mathlib.Core.List.Sublist
use mess.Base.{
  ◌&&◌, ℤ, ℕ, ◌≡◌, ◌≤◌, refl, ap, Bool, true, false, inl, inr, List, [], ◌∷◌, some, Bool-cases,
  arith, select, Map,
}
use mess.Wire.{Message}
use mess.State.{Agent, Broker, Env}
use mess.Mentions.{is_user_handle}
use mess.Sweeps.{too_old, overdue, all_overdue, expire_inbox}
use mess.Daemon.{append_all, commit, journal_and_commit, expire_durably}

-- Whether every append of these succeeds.
abbrev pub all_written : (Message → Bool) → List Message → Bool
all_written ok [] = true
all_written ok (m ∷ ms) = let rest = all_written ok ms in ok m && rest

append_all-ok :
    (ok : Message → Bool) (ms : List Message)
    → (append_all ok ms).1 ≡ true
    → ((append_all ok ms).0 ≡ ms) × (all_written ok ms ≡ true)
unfolding append_all
append_all-ok ok [] h = (refl, refl)
append_all-ok ok (m ∷ ms) h = elim (Bool-cases (ok m)) [
  | inl e ↦
      let rest : (append_all ok ms).1 ≡ true = ground (arith, h, e) in
      let (all, good) = append_all-ok ok ms rest in rw e (ap (◌∷◌ m) all, good)
  | inr e ↦ absurd (ground (arith, h, e))
]

append_all-fails :
    (ok : Message → Bool) (ms : List Message)
    → (append_all ok ms).1 ≡ false
    → all_written ok ms ≡ false
unfolding append_all
append_all-fails ok [] h = h
append_all-fails ok (m ∷ ms) h = elim (Bool-cases (ok m)) [
  | inl e ↦ rw e (append_all-fails ok ms (ground (arith, h, e)))
  | inr e ↦ rw e refl
]

-- What the second call drops, given what the first one found.
abbrev pub Durable : Bool → Env → Env → ℤ → Broker → Broker × List Message × List Message → Type 0
Durable false env later max_age b r = (r.0 ≡ b) × (r.1 ≡ [])
Durable true env later max_age b r =
    Sublist r.2 r.1
    × (r.0 ≡ (expire_inbox later max_age false b).0)
    × (r.1 ≡ (expire_inbox later max_age false b).1)
    × (r.2 ≡ (expire_inbox env max_age true b).1)

-- Whether there is mail and all of it can be journalled.
abbrev pub is_due : (Message → Bool) → List Message → Bool
is_due ok [] = false
is_due ok (m ∷ ms) = all_written ok (m ∷ ms)

module _ (env : Env) (t : ℕ) (max_age : ℤ) (later : env.now ≤ t) where
  abbrev afterwards : Env
  afterwards = record env { now = t }

  too_old_later : (at : ℕ) → too_old env max_age at ≡ true → too_old afterwards max_age at ≡ true
  unfolding too_old
  too_old_later at h = ground arith

  select-grows :
      (ms : List Message)
      → Sublist
          (select (λ (m : Message). too_old env max_age m.time) ms)
          (select (λ (m : Message). too_old afterwards max_age m.time) ms)
  unfolding select
  select-grows [] = Sublist.refl []
  select-grows (m ∷ ms) = elim (Bool-cases (too_old env max_age m.time)) [
    | inl e ↦ rw (e, too_old_later m.time e) (Sublist.cons-cons m (select-grows ms))
    | inr e ↦ elim (Bool-cases (too_old afterwards max_age m.time)) [
      | inl f ↦ rw (e, f) (Sublist.cons m (select-grows ms))
      | inr f ↦ rw (e, f) (select-grows ms)
    ]
  ]

  overdue-grows : (a : Agent) → Sublist (overdue env max_age a) (overdue afterwards max_age a)
  unfolding overdue
  overdue-grows a = elim (Bool-cases (is_user_handle env.logins a.name)) [
    | inl e ↦ rw e (Sublist.refl [])
    | inr e ↦ rw e (select-grows a.inbox)
  ]

  all_overdue-grows :
      (agents : Map Agent)
      → Sublist (all_overdue env max_age agents) (all_overdue afterwards max_age agents)
  unfolding all_overdue
  all_overdue-grows [] = Sublist.refl []
  all_overdue-grows ((k, a) ∷ agents) = Sublist.append (overdue-grows a) (all_overdue-grows agents)

  journalled :
      (ok : Message → Bool) (b : Broker) (found : List Message)
      → found ≡ (expire_inbox env max_age true b).1
      → Sublist found (expire_inbox afterwards max_age false b).1
      → Durable
          (is_due ok found)
          env
          afterwards
          max_age
          b
          (journal_and_commit afterwards max_age (some ok) found b)
  unfolding journal_and_commit commit
  journalled ok b [] e h = (refl, refl)
  journalled ok b (m ∷ ms) e h = elim (Bool-cases (append_all ok (m ∷ ms)).1) [
    | inr f ↦ rw (f, append_all-fails ok (m ∷ ms) f) (refl, refl)
    | inl f ↦ let (all, good) = append_all-ok ok (m ∷ ms) f in rw (f, all, good) (h, refl, refl, e)
  ]

  -- With a journal, and a clock that does not run backwards: if nothing is due at the first reading of
  -- the clock, or an append fails for some of what is, an expiry changes nothing and drops nothing.
  -- Otherwise it journals all the mail that was due at its first reading of the clock, and drops, with
  -- it, the mail that is due at its second. What fell due in between is dropped as well, though it is
  -- not in the journal.
  pub expire_durably_lem :
      (ok : Message → Bool) (b : Broker)
      → Durable
          (is_due ok (expire_inbox env max_age true b).1)
          env
          afterwards
          max_age
          b
          (expire_durably env afterwards max_age (some ok) b)
  unfolding expire_durably
  expire_durably_lem ok b =
      journalled ok b (expire_inbox env max_age true b).1 refl
        (unfold expire_inbox in all_overdue-grows b.agents)
