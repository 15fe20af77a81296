-- ===== src/Sweeps/Kept.antt =====
-- What a cleanup leaves alone, and what it takes.
use mess.Base.{
  ℤ, keys_of, ℕ, ◌≡◌, refl, sym, ap, ap₂, ◌∙◌, Bool, true, false, List, [], ◌∷◌, arith,
  if◌then◌else◌, Bool-cases, subst, inl, inr, Text, same, same→eq, contains, Option, none, some,
  Map, find, find-delete, sort_by, Distinct, is_some,
}
use mess.Rooms.{text_lt}
use mess.State.{Agent, Bridge, Broker, Env}
use mess.Core.{changed, expired}
use mess.Owners.{remove_agent_locked, forget}
use mess.Core.{evict_waiters}
use mess.Sweeps.{
  prunable, stale, remove_all, drop_bridge, drop_bridges, expired_ids, prune, sweep, cleanup,
}
use mess.Sweeps.Selected.{contains-sort_by, contains-select, chosen}

remove_agent_locked-agents :
    (k key : Text) (b : Broker)
    → find k (remove_agent_locked key b).0.agents ≡ (if same key k then none else find k b.agents)
unfolding remove_agent_locked forget evict_waiters
remove_agent_locked-agents k key b = elim (Bool-cases (is_some (find key b.agents))) [
  | inl e ↦ rw e (find-delete key k b.agents)
  | inr e ↦ rw e (ground (arith, e, same→eq key k))
]

remove_all-agents :
    (k : Text) (keys : List Text) (b : Broker)
    → find k (remove_all keys b).agents ≡ (if contains k keys then none else find k b.agents)
unfolding remove_all contains
remove_all-agents k [] b = refl
remove_all-agents k (key ∷ keys) b = ground (
  arith,
  remove_all-agents k keys (remove_agent_locked key b).0,
  remove_agent_locked-agents k key b,
)

drop_bridge-agents :
    (o : Option Bridge) (id : Text) (b : Broker) → (drop_bridge o id b).agents ≡ b.agents
unfolding drop_bridge
drop_bridge-agents none id b = refl
drop_bridge-agents (some br) id b = refl

drop_bridges-agents : (ids : List Text) (b : Broker) → (drop_bridges ids b).agents ≡ b.agents
unfolding drop_bridges
drop_bridges-agents [] b = refl
drop_bridges-agents (id ∷ ids) b =
    drop_bridges-agents ids (drop_bridge (find id b.bridges) id b)
    ∙ drop_bridge-agents (find id b.bridges) id b

drop_bridge-bridges :
    (k : Text) (o : Option Bridge) (id : Text) (b : Broker)
    → find id b.bridges ≡ o
    → find k (drop_bridge o id b).bridges ≡ (if same id k then none else find k b.bridges)
unfolding drop_bridge
drop_bridge-bridges k none id b e = ground (arith, same→eq id k, e)
drop_bridge-bridges k (some br) id b e = find-delete id k b.bridges

drop_bridges-bridges :
    (k : Text) (ids : List Text) (b : Broker)
    → find k (drop_bridges ids b).bridges ≡ (if contains k ids then none else find k b.bridges)
unfolding drop_bridges contains
drop_bridges-bridges k [] b = refl
drop_bridges-bridges k (id ∷ ids) b =
    drop_bridges-bridges k ids (drop_bridge (find id b.bridges) id b)
    ∙ ground (arith, drop_bridge-bridges k (find id b.bridges) id b refl)

prune-agents :
    (k : Text) (keys : List Text) (b : Broker)
    → find k (prune keys b).agents ≡ (if contains k keys then none else find k b.agents)
unfolding prune changed
prune-agents k [] b = remove_all-agents k [] b
prune-agents k (key ∷ keys) b = remove_all-agents k (key ∷ keys) b

sweep-agents : (ids : List Text) (b : Broker) → (sweep ids b).agents ≡ b.agents
unfolding sweep changed
sweep-agents [] b = refl
sweep-agents (id ∷ ids) b = drop_bridges-agents (id ∷ ids) b

sweep-bridges :
    (k : Text) (ids : List Text) (b : Broker)
    → find k (sweep ids b).bridges ≡ (if contains k ids then none else find k b.bridges)
unfolding sweep changed
sweep-bridges k [] b = drop_bridges-bridges k [] b
sweep-bridges k (id ∷ ids) b = drop_bridges-bridges k (id ∷ ids) b

remove_agent_locked-bridges :
    (key : Text) (b : Broker) → (remove_agent_locked key b).0.bridges ≡ b.bridges
unfolding remove_agent_locked forget evict_waiters
remove_agent_locked-bridges key b = elim (Bool-cases (is_some (find key b.agents))) [
  | inl e ↦ rw e refl
  | inr e ↦ rw e refl
]

remove_all-bridges : (keys : List Text) (b : Broker) → (remove_all keys b).bridges ≡ b.bridges
unfolding remove_all
remove_all-bridges [] b = refl
remove_all-bridges (key ∷ keys) b =
    remove_all-bridges keys (remove_agent_locked key b).0 ∙ remove_agent_locked-bridges key b

prune-bridges : (keys : List Text) (b : Broker) → (prune keys b).bridges ≡ b.bridges
unfolding prune changed
prune-bridges [] b = refl
prune-bridges (key ∷ keys) b = remove_all-bridges (key ∷ keys) b

expired_ids-find :
    (now : ℕ) (id : Text) (m : Map Bridge)
    → Distinct (keys_of m)
    → contains id (expired_ids now m)
      ≡ chosen (λ (e : Text × Bridge). expired now e.1) id (find id m)
unfolding expired_ids
expired_ids-find now id m d =
    contains-sort_by text_lt id _ ∙ contains-select (λ (e : Text × Bridge). expired now e.1) id m d

-- Where each key stands once in the tables, a cleanup removes just the agents that it may prune
-- (neither alive, nor the human's mailbox, and unseen or with undrained mail for too long) and just
-- the bridges that have expired, and keeps every other agent and bridge as it was. A dry run
-- reports the same names and changes nothing.
pub cleanup_lem :
    (env : Env) (max_age : ℤ) (b : Broker)
    → Distinct (keys_of b.agents)
    → Distinct (keys_of b.bridges)
    → ((k : Text)
        → find k (cleanup env max_age false b).0.agents ≡ (
            if chosen (λ (e : Text × Agent). prunable env max_age b e.0 e.1) k (find k b.agents)
            then none
            else find k b.agents))
      × ((id : Text)
          → find id (cleanup env max_age false b).0.bridges ≡ (
              if chosen (λ (e : Text × Bridge). expired env.now e.1) id (find id b.bridges)
              then none
              else find id b.bridges))
      × (cleanup env max_age true b ≡ (b, (cleanup env max_age false b).1))
unfolding cleanup
cleanup_lem env max_age b agents bridges =
    let doomed = sort_by text_lt (keys_of (stale env max_age b)) in
    let gone = prune doomed b in
    let ids = expired_ids env.now gone.bridges in
    (
      λ k.
          ap (find k) (sweep-agents ids gone)
          ∙ prune-agents k doomed b
          ∙ ap (λ t. if t then none else find k b.agents)
              (contains-sort_by text_lt k (keys_of (stale env max_age b))
                ∙ unfold stale in
                  contains-select (λ (e : Text × Agent). prunable env max_age b e.0 e.1) k b.agents
                    agents),
      λ id.
          sweep-bridges id ids gone
          ∙ ap₂ (λ (t : Bool) (m : Map Bridge). if t then none else find id m)
              (expired_ids-find env.now id gone.bridges (
                subst (λ (m : Map Bridge). Distinct (keys_of m)) (sym (prune-bridges doomed b))
                  bridges))
              refl
          ∙ ap
              (λ (m : Map Bridge).
                if chosen (λ (e : Text × Bridge). expired env.now e.1) id (find id m)
                then none
                else find id m)
              (prune-bridges doomed b),
      refl,
    )
