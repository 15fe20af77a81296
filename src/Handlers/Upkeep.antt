-- ===== src/Handlers/Upkeep.antt =====
-- daemon.go: the cases of `dispatch` that sweep and that stop the daemon.
use mess.Base.{ℕ, ◌*◌, codes, true, false, [], ◌∷◌, map, none, some, length, ℤ, pos, if◌then◌else◌}
use mess.Wire.{Message}
use mess.Sweeps.{cleanup, expire_inbox}
use mess.Daemon.{expire_durably}
use mess.Durations.{hour}
use mess.Journal.{JournalLine}
use mess.Replies.{done, invalid_duration}
use mess.Handlers.{Handler, answer, fails, need_duration}

abbrev pub default_expire_max_age : ℤ
default_expire_max_age = pos (14 * 24 * hour)

unfoldable pub do_cleanup : Handler
do_cleanup host req b = elim (need_duration (pos (24 * hour)) req.timeout) [
  | none ↦ fails b (invalid_duration req.timeout)
  | some max_age ↦
      let (b', names) = cleanup host.env max_age req.peek b in
      answer b' (record done { count = length names; removed = names })
]

expired_line : ℕ → Message → JournalLine
expired_line now m = record { message = m; room = []; event = codes "expired"; expired_at = now }

-- A dry run neither journals nor drops.
unfoldable pub expire_by : ℤ → Handler
unfolding expired_line
expire_by max_age host req b =
    let (b', gone, logged) = expire_durably host.env host.later max_age host.writes b in
    if req.peek
    then answer b (record done { expired = length (expire_inbox host.env max_age true b).1 })
    else record {
      broker = b';
      replies = record done { expired = length gone } ∷ [];
      journaled = map (expired_line host.env.now) logged;
      stops = false;
    }

unfoldable pub do_expire : Handler
unfolding expire_by
do_expire host req b = elim (need_duration default_expire_max_age req.timeout) [
  | none ↦ fails b (invalid_duration req.timeout)
  | some max_age ↦ expire_by max_age host req b
]

unfoldable pub do_stop : Handler
do_stop host req b = record { broker = b; replies = done ∷ []; journaled = []; stops = true }
