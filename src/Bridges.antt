-- ===== src/Bridges.antt =====
-- broker.go: bridges between topics. A bridge is told apart by its id, where the source compares
-- pointers; the log lines are left out.
pub mod Granted
pub mod Index
use mess.Base.{
  add_int, is_positive, ℤ, ℕ, suc, ◌+◌, Text, codes, Bool, true, false, ◌&&◌, ◌||◌, not, List, [],
  ◌∷◌, ◌++◌, map, Option, none, some, Map, find, put, delete, or_zero, same, ltb, leb, ◌==◌,
  if◌then◌else◌, length, select, sort_by,
}
use mess.Rooms.{topic_key, text_lt}
use mess.Ids.{bridge_id}
use mess.State.{Bridge, Direction, both, a_to_b, b_to_a, BridgeSnap, Broker, Env}
use mess.Core.{changed, expired}
use mess.Snapshot.{bridge_snap}

abbrev pub max_bridges : ℕ
max_bridges = 200

unfoldable pub same_dir : Direction → Direction → Bool
same_dir both both = true
same_dir a_to_b a_to_b = true
same_dir b_to_a b_to_a = true
same_dir _ _ = false

-- A bridge between these two topics, either way round, with this direction.
unfoldable pub joins : Text → Text → Direction → Bridge → Bool
unfolding same_dir
joins ak bk dir br =
    same_dir br.dir dir && (same br.a ak && same br.b bk || same br.a bk && same br.b ak)

-- The first of them in the table's order. The source goes through a map in no fixed order, so which of
-- several, if `force` has made more than one, it takes is left open there.
unfoldable pub find_bridge : Text → Text → Direction → Map Bridge → Option Bridge
find_bridge ak bk dir [] = none
find_bridge ak bk dir ((id, br) ∷ m) =
    if joins ak bk dir br then some br else find_bridge ak bk dir m

pub data BridgeError : Type 0 where
  bridge_to_itself : BridgeError
  bridge_limit_reached : BridgeError

pub data Bridged : Type 0 where
  bridged : Broker → Bridge → Bridged
  no_bridge : BridgeError → Bridged

-- What the caller asks for.
pub record Wish : Type 0 where
  pub local_room : Text
  pub local_topic : Text
  pub remote_room : Text
  pub remote_topic : Text
  pub dir : Direction
  pub creator : Text
  pub ttl : ℤ

unfoldable pub near_key : Wish → Text
near_key w = topic_key w.local_room w.local_topic

unfoldable pub far_key : Wish → Text
far_key w = topic_key w.remote_room w.remote_topic

unfoldable pub new_bridge : Env → Wish → Text → Bridge
unfolding near_key far_key
new_bridge env w id = record {
  id = id;
  a = near_key w;
  b = far_key w;
  a_room = w.local_room;
  a_topic = w.local_topic;
  b_room = w.remote_room;
  b_topic = w.remote_topic;
  dir = w.dir;
  creator = w.creator;
  created_at = env.now;
  expires_at = if is_positive w.ttl then add_int env.now w.ttl else 0;
}

-- `m[key] = append(m[key], br)`
unfoldable pub index_under : Text → Bridge → Map (List Bridge) → Map (List Bridge)
index_under key br m = put key (or_zero [] (find key m) ++ br ∷ []) m

unfoldable pub create_bridge : Env → Wish → Broker → Broker × Bridge
create_bridge env w b =
    let br = new_bridge env w (bridge_id (b.seq + 1)) in
    (
      changed (record b {
        seq = b.seq + 1;
        bridges = put br.id br b.bridges;
        bridges_by_topic = index_under br.b br (index_under br.a br b.bridges_by_topic);
      }),
      br,
    )

-- Without `force` an existing bridge is returned as it is, and the number is limited.
unfoldable pub bridge : Env → Wish → Bool → Broker → Bridged
bridge env w force b =
    let made = create_bridge env w b in
    if same (near_key w) (far_key w)
    then no_bridge bridge_to_itself
    else if force
    then bridged made.0 made.1
    else elim (find_bridge (near_key w) (far_key w) w.dir b.bridges) [
      | some br ↦ bridged b br
      | none ↦
          if leb max_bridges (length b.bridges)
          then no_bridge bridge_limit_reached
          else bridged made.0 made.1
    ]

unfoldable pub remove_bridge : List Bridge → Bridge → List Bridge
remove_bridge brs target = select (λ (br : Bridge). not (same br.id target.id)) brs

no_bridges : List Bridge → Bool
no_bridges [] = true
no_bridges (br ∷ brs) = false

-- The list of a topic without a bridge.
unfoldable pub unindex : Text → Bridge → Map (List Bridge) → Map (List Bridge)
unindex key br m = put key (remove_bridge (or_zero [] (find key m)) br) m

unfoldable pub delete_if_empty : Text → Map (List Bridge) → Map (List Bridge)
unfolding no_bridges
delete_if_empty key m = if no_bridges (or_zero [] (find key m)) then delete key m else m

-- The flag says that there was such a bridge.
unfoldable pub unbridge : Text → Broker → Broker × Bool
unbridge id b = elim (find id b.bridges) [
  | none ↦ (b, false)
  | some br ↦ (
    changed (record b {
      bridges = delete id b.bridges;
      bridges_by_topic =
          delete_if_empty br.b
            (delete_if_empty br.a (unindex br.b br (unindex br.a br b.bridges_by_topic)));
    }),
    true,
  )
]

unfoldable pub list_bridges : ℕ → Broker → List BridgeSnap
list_bridges now b =
    sort_by (λ (x y : BridgeSnap). text_lt x.id y.id)
      (map bridge_snap (select (λ (e : Text × Bridge). not (expired now e.1)) b.bridges))
