-- ===== src/Examples/Restarts.antt =====
-- The roster of the town, its expired mail, and the town after a restart.
use mess.Sweeps.{expire_inbox}
use mess.Base.{
  pos, Bool, some, arith, true, ◌≡◌, refl, find, [], ◌∷◌, sort_by, contains, text_discrete, All,
}
use mess.Rooms.{agent_key}
use mess.Core.{new_broker, new_agent}
use mess.Snapshot.{snapshot}
use mess.Restart.{load}
use mess.Restart.RoundTrip.{load-snapshot, Keyed}
use mess.Owners.{add_topics}
use mess.Rooms.{text_lt}
use mess.Wire.{Message}
use mess.Daemon.{expire_durably}
use mess.Daemon.Durable.{is_due, Durable, expire_durably_lem}
use mess.Examples.Scene.{bob, letter, member, news, day, town}

town-Keyed : All Keyed town.agents
unfolding agent_key
town-Keyed = (refl, (refl, (refl, tt)))

load-snapshot_example :
    find bob (load day (snapshot town) new_broker).agents
    ≡ some (record (new_agent bob) {
      inbox = letter ∷ [];
      state = [];
      topics = add_topics (sort_by text_lt (news ∷ [])) [];
    })
unfolding find contains text_discrete
load-snapshot_example =
    load-snapshot day town bob (member bob (letter ∷ []) (news ∷ []) (3 ∷ []))
      (refl, (refl, (refl, tt))) town-Keyed refl

abbrev journal_ok : Message → Bool
journal_ok m = true

expire_durably_lem_example :
    Durable
      (is_due journal_ok (expire_inbox day (pos 500) true town).1)
      day
      (record day { now = 1100 })
      (pos 500)
      town
      (expire_durably day (record day { now = 1100 }) (pos 500) (some journal_ok) town)
expire_durably_lem_example = expire_durably_lem day 1100 (pos 500) (ground arith) journal_ok town
