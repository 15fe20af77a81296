-- ===== src/Bridges/Granted.antt =====
-- Creating a bridge is idempotent and bounded.
use mathlib.Core.List.{Perm}
use mess.Base.{
  ◌∙◌, ap, is_some, any, Bool, List, false, List, ◌∙◌, Bool, ap, is_some, any, ℕ, ◌≤◌, ◌≡◌, true,
  false, Map, length,
}
use mess.State.{Bridge, Broker, Env}
use mess.Bridges.{max_bridges, joins, Bridged, bridged, no_bridge, Wish, near_key, far_key, bridge}

-- What a bridge promises that was asked for: it joins the two topics of the wish, in its direction,
-- and nothing changed.
abbrev pub Again : Wish → Broker → Bridged → Type 0
Again w b (bridged after br) = (after ≡ b) × (joins (near_key w) (far_key w) w.dir br ≡ true)
Again w b (no_bridge e) = ⊥

-- The same state, with its table of bridges in another order.
abbrev pub reordered : Map Bridge → Broker → Broker
reordered table b = record b { bridges = table }

Stable : Env → Wish → ℕ → Bridged → Type 0
Stable later w n (bridged b br) =
    ((table : Map Bridge)
      → Perm b.bridges table
      → Again w (reordered table b) (bridge later w false (reordered table b)))
    × (n ≤ max_bridges → length b.bridges ≤ max_bridges)
Stable later w n (no_bridge e) = Unit {0}
