-- ===== src/Bridges/Index.antt =====
-- Tearing down a bridge leaves no trace of it.
use mess.Base.{
  not, Text, ◌≡◌, ◌≢◌, refl, sym, subst, ◌∙◌, inl, inr, Bool, true, false, List, [], ◌∷◌, none,
  some, Map, find, find-put, find-delete, or_zero, same, arith, select, All, Bool-cases, delete,
  if◌then◌else◌,
}
use mess.State.{Bridge, Broker}
use mess.Core.{changed}
use mess.Bridges.{remove_bridge, no_bridges, unindex, delete_if_empty, unbridge}
use mess.Topics.Linked.{bridges_at}

no_bridges→[] : (xs : List Bridge) → no_bridges xs ≡ true → xs ≡ []
unfolding no_bridges
no_bridges→[] [] h = refl
no_bridges→[] (x ∷ xs) h = cc

bridges_at-delete_if_empty :
    (key tk : Text) (m : Map (List Bridge))
    → bridges_at tk (delete_if_empty key m) ≡ bridges_at tk m
unfolding delete_if_empty
bridges_at-delete_if_empty key tk m = elim (Bool-cases (no_bridges (or_zero [] (find key m)))) [
  | inl e ↦ ground (arith, e, no_bridges→[] (or_zero [] (find key m)) e, find-delete key tk m)
  | inr e ↦ rw e refl
]

bridges_at-unindex :
    (key tk : Text) (br : Bridge) (m : Map (List Bridge))
    → bridges_at tk (unindex key br m)
      ≡ (if same key tk then remove_bridge (bridges_at tk m) br else bridges_at tk m)
unfolding unindex
bridges_at-unindex key tk br m =
    ground (arith, find-put key tk (remove_bridge (or_zero [] (find key m)) br) m)

remove_absent :
    (br : Bridge) (xs : List Bridge)
    → All (λ (x : Bridge). same x.id br.id ≡ false) xs
    → remove_bridge xs br ≡ xs
unfolding remove_bridge select
remove_absent br [] h = refl
remove_absent br (x ∷ xs) (hx, h) = ground (arith, remove_absent br xs h)

remove_remove :
    (br : Bridge) (xs : List Bridge) → remove_bridge (remove_bridge xs br) br ≡ remove_bridge xs br
unfolding remove_bridge select
remove_remove br [] = refl
remove_remove br (x ∷ xs) = ground (arith, remove_remove br xs)

-- In every other topic's list the bridge does not stand.
abbrev pub Elsewhere : Bridge → Map (List Bridge) → Type 0
Elsewhere br m =
    (tk : Text)
    → tk ≢ br.a
    → tk ≢ br.b
    → All (λ (x : Bridge). same x.id br.id ≡ false) (bridges_at tk m)

bridges_at-remove :
    (br : Bridge) (m : Map (List Bridge)) (tk : Text)
    → Elsewhere br m
    → bridges_at tk
        (delete_if_empty br.b (delete_if_empty br.a (unindex br.b br (unindex br.a br m))))
      ≡ remove_bridge (bridges_at tk m) br
bridges_at-remove br m tk h =
    let once = unindex br.a br m in
    let twice = unindex br.b br once in
    bridges_at-delete_if_empty br.b tk (delete_if_empty br.a twice)
    ∙ bridges_at-delete_if_empty br.a tk twice
    ∙ ground (
      arith,
      bridges_at-unindex br.b tk br once,
      bridges_at-unindex br.a tk br m,
      remove_remove br (bridges_at tk m),
      λ (n : tk ≢ br.a) (k : tk ≢ br.b). remove_absent br (bridges_at tk m) (h tk n k),
    )

abbrev without : Text → Bridge → Broker → Broker
without id br b = record b {
  bridges = delete id b.bridges;
  bridges_by_topic =
      delete_if_empty br.b
        (delete_if_empty br.a (unindex br.b br (unindex br.a br b.bridges_by_topic)));
}

unbridge-found :
    (id : Text) (b : Broker) (br : Bridge)
    → find id b.bridges ≡ some br
    → unbridge id b ≡ (changed (without id br b), true)
unfolding unbridge
unbridge-found id b br found = rw (unbridge, found) refl

-- A broker and a flag, after the bridge is gone.
abbrev Removed : Text → Broker → Bridge → Broker × Bool → Type 0
Removed id b br r =
    (r.1 ≡ true)
    × ((tk : Text)
        → bridges_at tk r.0.bridges_by_topic ≡ remove_bridge (bridges_at tk b.bridges_by_topic) br)
    × ((other : Text)
        → find other r.0.bridges ≡ (if same id other then none else find other b.bridges))

-- Tearing down a bridge that stands in no list but those of its two topics takes it out of the
-- table, leaves in the list of every topic just the bridges with another id, in their order, leaves
-- every other bridge, and says so.
pub unbridge_lem :
    (id : Text) (b : Broker) (br : Bridge)
    → find id b.bridges ≡ some br
    → Elsewhere br b.bridges_by_topic
    → ((unbridge id b).1 ≡ true)
      × ((tk : Text)
          → bridges_at tk (unbridge id b).0.bridges_by_topic
            ≡ select (λ (x : Bridge). not (same x.id br.id)) (bridges_at tk b.bridges_by_topic))
      × ((other : Text)
          → find other (unbridge id b).0.bridges
            ≡ (if same id other then none else find other b.bridges))
unfolding changed remove_bridge
unbridge_lem id b br found h = subst (Removed id b br) (sym (unbridge-found id b br found)) (
  refl,
  λ tk. bridges_at-remove br b.bridges_by_topic tk h,
  λ other. find-delete id other b.bridges,
)
