-- ===== src/Daemon.antt =====
-- daemon.go: expireDurably, which journals expired mail before it drops it. The journal is a test that
-- says which appends succeed; the clock is read anew for the second of the two broker calls.
pub mod Durable
use mess.Base.{ℤ, ℕ, Bool, true, false, List, [], ◌∷◌, Option, none, some, if◌then◌else◌}
use mess.Wire.{Message}
use mess.State.{Broker, Env}
use mess.Sweeps.{expire_inbox}

-- What was appended, and whether every append succeeded; the first failure ends the loop.
unfoldable pub append_all : (Message → Bool) → List Message → List Message × Bool
append_all ok [] = ([], true)
append_all ok (m ∷ ms) =
    let rest = append_all ok ms in if ok m then (m ∷ rest.0, rest.1) else ([], false)

-- The state, the messages returned and the messages that were journalled.
unfoldable pub commit : Env → ℤ → List Message → Broker → Broker × List Message × List Message
commit later max_age logged b = let r = expire_inbox later max_age false b in (r.0, r.1, logged)

unfoldable pub journal_and_commit :
    Env → ℤ → Option (Message → Bool) → List Message → Broker → Broker × List Message × List Message
unfolding append_all commit
journal_and_commit later max_age journal [] b = (b, [], [])
journal_and_commit later max_age none (m ∷ ms) b = commit later max_age [] b
journal_and_commit later max_age (some ok) (m ∷ ms) b =
    let r = append_all ok (m ∷ ms) in if r.1 then commit later max_age r.0 b else (b, [], r.0)

unfoldable pub expire_durably :
    Env → Env → ℤ → Option (Message → Bool) → Broker → Broker × List Message × List Message
unfolding journal_and_commit
expire_durably env later max_age journal b =
    journal_and_commit later max_age journal (expire_inbox env max_age true b).1 b
