-- ===== src/Examples/Mail.antt =====
-- Sending, reading, waiting and expiring.
use mathlib.Core.List.{Perm}
use mess.Base.{pos, codes, ◌≡◌, true, false, [], ◌∷◌, ◌++◌, has, Bool}
use mess.Wire.{Message}
use mess.Core.{agent_at, deliver_to, deliver_quiet_to}
use mess.Direct.{Extras, plain, send}
use mess.Direct.Delivery.{send_lem, Sent}
use mess.Inbox.Reads.{drain_by_lem, out, drained}
use mess.Inbox.Waits.{wait_signalled, waiting, channel}
use mess.Sweeps.{expire_inbox}
use mess.Sweeps.Expiry.{expire_inbox_lem, mail}
use mess.Examples.Scene.{alice, bob, carol, day, town, letter}

abbrev asked : Extras
asked = record plain { ack = true }

send_lem_example :
    Sent day alice bob (codes "ping") asked town (send day alice bob (codes "ping") asked town)
send_lem_example = send_lem day alice bob (codes "ping") asked town

abbrev any_kind : Message → Bool
any_kind m = true

drain_by_lem_example :
    Perm
      (agent_at bob town).inbox
      (out day bob 1 any_kind town ++ (agent_at bob (drained day bob 1 any_kind town)).inbox)
drain_by_lem_example = (drain_by_lem day bob 1 any_kind town).1

wait_signalled_example :
    has
      (channel carol any_kind town)
      (deliver_to carol letter (deliver_quiet_to carol letter (waiting carol any_kind town))).fired
    ≡ true
wait_signalled_example = (wait_signalled carol any_kind town letter letter).3

expire_inbox_lem_example : Perm (letter ∷ []) (
    (expire_inbox day (pos 500) false town).1
    ++ mail (expire_inbox day (pos 500) false town).0.agents)
expire_inbox_lem_example = (expire_inbox_lem day (pos 500) town).0
