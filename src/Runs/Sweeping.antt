-- ===== src/Runs/Sweeping.antt =====
-- The sweeps keep the state valid.
use mess.Base.{
  ℤ, keys_of, Bool, List, [], ◌∷◌, Text, Option, none, some, find, Map, ap, sym, subst, ◌≡◌, refl,
  Distinct,
}
use mess.Wire.{Message}
use mess.State.{Agent, Bridge, Broker, Env}
use mess.Core.{changed}
use mess.Owners.{remove_agent_locked}
use mess.Sweeps.{
  remove_all, drop_bridge, drop_bridges, prune, sweep, cleanup, drop_overdue, save_expired,
  expire_inbox,
}
use mess.Runs.Tables.{Distinct-delete, either}
use mess.Runs.Helpers.{IsValid, remove_agent_locked-IsValid}

remove_all-IsValid : (names : List Text) (b : Broker) → IsValid b → IsValid (remove_all names b)
unfolding remove_all
remove_all-IsValid [] b v = v
remove_all-IsValid (k ∷ names) b v =
    remove_all-IsValid names (remove_agent_locked k b).0 (remove_agent_locked-IsValid k b v)

drop_bridge-IsValid :
    (o : Option Bridge) (id : Text) (b : Broker) → IsValid b → IsValid (drop_bridge o id b)
unfolding drop_bridge
drop_bridge-IsValid none id b v = v
drop_bridge-IsValid (some br) id b v = (v.0, v.1, Distinct-delete id b.bridges v.2, v.3)

drop_bridges-IsValid : (ids : List Text) (b : Broker) → IsValid b → IsValid (drop_bridges ids b)
unfolding drop_bridges
drop_bridges-IsValid [] b v = v
drop_bridges-IsValid (id ∷ ids) b v =
    drop_bridges-IsValid ids (drop_bridge (find id b.bridges) id b)
      (drop_bridge-IsValid (find id b.bridges) id b v)

prune-IsValid : (names : List Text) (b : Broker) → IsValid b → IsValid (prune names b)
unfolding prune changed
prune-IsValid [] b v = v
prune-IsValid (k ∷ names) b v = remove_all-IsValid (k ∷ names) b v

sweep-IsValid : (ids : List Text) (b : Broker) → IsValid b → IsValid (sweep ids b)
unfolding sweep changed
sweep-IsValid [] b v = v
sweep-IsValid (id ∷ ids) b v = drop_bridges-IsValid (id ∷ ids) b v

keys_of-drop_overdue :
    (env : Env) (max_age : ℤ) (agents : Map Agent)
    → keys_of (drop_overdue env max_age agents) ≡ keys_of agents
unfolding drop_overdue
keys_of-drop_overdue env max_age [] = refl
keys_of-drop_overdue env max_age ((k, a) ∷ agents) =
    ap (◌∷◌ k) (keys_of-drop_overdue env max_age agents)

save_expired-IsValid :
    (gone : List Message) (b : Broker) → IsValid b → IsValid (save_expired gone b)
unfolding save_expired changed
save_expired-IsValid [] b v = v
save_expired-IsValid (m ∷ ms) b v = v

module _ (env : Env) (b : Broker) (v : IsValid b) where
  pub cleanup-IsValid : (max_age : ℤ) (dry_run : Bool) → IsValid (cleanup env max_age dry_run b).0
  unfolding cleanup
  cleanup-IsValid max_age dry_run =
      either IsValid dry_run b _ v (sweep-IsValid _ _ (prune-IsValid _ b v))

  pub expire_inbox-IsValid :
      (max_age : ℤ) (dry_run : Bool) → IsValid (expire_inbox env max_age dry_run b).0
  unfolding expire_inbox
  expire_inbox-IsValid max_age dry_run =
      let kept : Broker = record b { agents = drop_overdue env max_age b.agents } in
      let once = subst Distinct (sym (keys_of-drop_overdue env max_age b.agents)) v.1 in
      either IsValid dry_run b _ v (save_expired-IsValid _ kept (v.0, once, v.2, v.3))
