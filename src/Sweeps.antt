-- ===== src/Sweeps.antt =====
-- broker.go: pruning dead agents and expired bridges, and dropping mail that stayed unread too
-- long. An age is compared as `add_int old max_age < now`, which is the source's `now - old > max_age`.
-- The log line is left out, and what the source gathers in map order stands in the table's order.
pub mod Selected
pub mod Kept
pub mod Expiry
use mess.Base.{
  add_int, ℤ, ℕ, ◌+◌, Text, Bool, true, false, ◌&&◌, ◌||◌, not, List, [], ◌∷◌, ◌++◌, map, Option,
  none, some, Map, find, delete, ltb, if◌then◌else◌, select, sort_by,
}
use mess.Rooms.{display_name, text_lt}
use mess.Mentions.{is_user_handle}
use mess.Wire.{Message}
use mess.State.{Agent, Bridge, Broker, Env}
use mess.Core.{changed, expired}
use mess.Presence.{alive}
use mess.Owners.{remove_agent_locked}
use mess.Bridges.{unindex}

module _ (env : Env) (max_age : ℤ) where
  unfoldable pub too_old : ℕ → Bool
  too_old t = ltb (add_int t max_age) env.now

  unfoldable pub unseen : Option ℕ → Bool
  unfolding too_old
  unseen none = false
  unseen (some t) = too_old t

  -- Whether the first message of an inbox is too old.
  unfoldable pub undrained : List Message → Bool
  unfolding too_old
  undrained [] = false
  undrained (m ∷ ms) = too_old m.time

  unfoldable pub prunable : Broker → Text → Agent → Bool
  unfolding unseen undrained
  prunable b key a =
      not (alive env key b)
      && not (is_user_handle env.logins a.name)
      && (unseen (find key b.last_seen) || undrained a.inbox)

  -- The entries that are pruned.
  unfoldable pub stale : Broker → Map Agent
  unfolding prunable
  stale b = select (λ (e : Text × Agent). prunable b e.0 e.1) b.agents

unfoldable pub remove_all : List Text → Broker → Broker
remove_all [] b = b
remove_all (key ∷ keys) b = remove_all keys (remove_agent_locked key b).0

unfoldable pub drop_bridge : Option Bridge → Text → Broker → Broker
drop_bridge none id b = b
drop_bridge (some br) id b = record b {
  bridges = delete id b.bridges;
  bridges_by_topic = unindex br.b br (unindex br.a br b.bridges_by_topic);
}

unfoldable pub drop_bridges : List Text → Broker → Broker
unfolding drop_bridge
drop_bridges [] b = b
drop_bridges (id ∷ ids) b = drop_bridges ids (drop_bridge (find id b.bridges) id b)

-- The ids of the bridges that have expired, sorted.
unfoldable pub expired_ids : ℕ → Map Bridge → List Text
expired_ids now bridges =
    sort_by text_lt
      (map (λ (e : Text × Bridge). e.0) (select (λ (e : Text × Bridge). expired now e.1) bridges))

-- `if len(keys) > 0 { …; b.changed() }`
unfoldable pub prune : List Text → Broker → Broker
unfolding remove_all
prune [] b = b
prune (key ∷ keys) b = changed (remove_all (key ∷ keys) b)

unfoldable pub sweep : List Text → Broker → Broker
unfolding drop_bridges
sweep [] b = b
sweep (id ∷ ids) b = changed (drop_bridges (id ∷ ids) b)

-- The names of the pruned agents, sorted.
unfoldable pub cleanup : Env → ℤ → Bool → Broker → Broker × List Text
unfolding stale
cleanup env max_age dry_run b =
    let names =
      sort_by text_lt
        (map (λ (e : Text × Agent). display_name e.1.room e.1.name) (stale env max_age b)) in
    let keys = sort_by text_lt (map (λ (e : Text × Agent). e.0) (stale env max_age b)) in
    let pruned = prune keys b in
    (if dry_run then b else sweep (expired_ids env.now pruned.bridges) pruned, names)

module _ (env : Env) (max_age : ℤ) where
  -- The messages of an agent that are dropped.
  unfoldable pub overdue : Agent → List Message
  unfolding too_old
  overdue a =
      if is_user_handle env.logins a.name
      then []
      else select (λ (m : Message). too_old env max_age m.time) a.inbox

  unfoldable pub without_overdue : Agent → Agent
  unfolding too_old
  without_overdue a = record a {
    inbox =
        if is_user_handle env.logins a.name
        then a.inbox
        else select (λ (m : Message). not (too_old env max_age m.time)) a.inbox;
  }

  unfoldable pub all_overdue : Map Agent → List Message
  unfolding overdue
  all_overdue [] = []
  all_overdue ((key, a) ∷ agents) = overdue a ++ all_overdue agents

  unfoldable pub drop_overdue : Map Agent → Map Agent
  unfolding without_overdue
  drop_overdue [] = []
  drop_overdue ((key, a) ∷ agents) = (key, without_overdue a) ∷ drop_overdue agents

-- `if !dryRun && len(expired) > 0 { b.changed() }`
unfoldable pub save_expired : List Message → Broker → Broker
save_expired [] b = b
save_expired (m ∷ ms) b = changed b

unfoldable pub expire_inbox : Env → ℤ → Bool → Broker → Broker × List Message
unfolding all_overdue drop_overdue save_expired
expire_inbox env max_age dry_run b =
    let gone = all_overdue env max_age b.agents in
    let kept = record b { agents = drop_overdue env max_age b.agents } in
    (if dry_run then b else save_expired gone kept, gone)
