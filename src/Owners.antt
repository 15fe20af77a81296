-- ===== src/Owners.antt =====
-- broker.go: registration, ownership of names, renaming and joining a room, removal. The message of
-- a refusal is its constructor; `in_use` carries the name as it is displayed.
pub mod Guard
pub mod Moves
use mess.Base.{
  ℕ, Text, Bool, true, false, ◌&&◌, ◌||◌, not, List, [], ◌∷◌, ◌++◌, map, Option, none, some, Map,
  find, put, delete, or_zero, is_some, is_empty, same, ltb, ◌==◌, if◌then◌else◌, remove, add,
  select, sort_by, any,
}
use mess.Rooms.{bare, room_of, topic_key, display_name, text_lt}
use mess.Mentions.{is_user_handle}
use mess.State.{Agent, Owner, Broker, Env}
use mess.Core.{agent_at, ensure, update_agent, touch, changed, evict_waiters, clear_warn}
use mess.Presence.{alive}

pub data Refusal : Type 0 where
  in_use : Text → Refusal
  new_name_required : Refusal

-- `ownershipMsg`: the key as room and name.
unfoldable pub ownership_msg : Text → Refusal
ownership_msg name = in_use (display_name (room_of name) (bare name))

-- A set without its last element is deleted.
no_subscribers : List Text → Bool
no_subscribers [] = true
no_subscribers (k ∷ ks) = false

unfoldable pub unsubscribe_everywhere : Text → Map (List Text) → Map (List Text)
unfolding no_subscribers
unsubscribe_everywhere name [] = []
unsubscribe_everywhere name ((topic, subs) ∷ m) =
    let rest = unsubscribe_everywhere name m in
    if no_subscribers (remove name subs)
    then delete topic rest
    else (topic, remove name subs) ∷ rest

-- What `removeAgentLocked` does to a known agent.
unfoldable pub forget : Text → Broker → Broker
unfolding evict_waiters unsubscribe_everywhere
forget name b = evict_waiters name (record b {
  agents = delete name b.agents;
  listeners = delete name b.listeners;
  busy_until = delete name b.busy_until;
  last_seen = delete name b.last_seen;
  owners = delete name b.owners;
  topics = unsubscribe_everywhere name b.topics;
})

-- The flag says that the agent was known.
unfoldable pub remove_agent_locked : Text → Broker → Broker × Bool
remove_agent_locked name b =
    if is_some (find name b.agents) then (forget name b, true) else (b, false)

unfoldable pub remove_agent : Text → Broker → Broker × Bool
unfolding remove_agent_locked changed
remove_agent name b =
    let (b', known) = remove_agent_locked name b in if known then (changed b', true) else (b, false)

-- `b.topics[tk][to] = true` for each of the topics, in the room of `to`.
unfoldable pub subscribe_all : Text → Text → List Text → Map (List Text) → Map (List Text)
subscribe_all to room [] m = m
subscribe_all to room (t ∷ ts) m =
    let tk = topic_key room t in
    subscribe_all to room ts (put tk (add to (or_zero [] (find tk m))) m)

unfoldable pub add_topics : List Text → List Text → List Text
add_topics [] s = s
add_topics (t ∷ ts) s = add_topics ts (add t s)

-- The fresher of two times.
unfoldable pub carry_over : Text → Text → Map ℕ → Map ℕ
carry_over from to m = elim (find from m) [
  | none ↦ m
  | some t ↦ if ltb (or_zero 0 (find to m)) t then put to t m else m
]

-- What the agent at the new key takes over.
unfoldable pub absorb : Option Agent → Agent → Agent
unfolding add_topics
absorb none dst = dst
absorb (some src) dst = record dst {
  inbox = dst.inbox ++ src.inbox;
  state = if is_empty dst.state then src.state else dst.state;
  topics = add_topics src.topics dst.topics;
}

source_topics : Option Agent → List Text
source_topics none = []
source_topics (some src) = src.topics

-- `to` with the mail, state, topics and the fresher marks of `from`.
unfoldable pub arrive : Text → Text → Broker → Broker
unfolding source_topics
arrive from to b =
    let b1 = update_agent to (absorb (find from b.agents)) b in
    record b1 {
      topics = subscribe_all to (room_of to) (source_topics (find from b.agents)) b1.topics;
      last_seen = carry_over from to b1.last_seen;
      busy_until = carry_over from to b1.busy_until;
    }

unfoldable pub migrate : Text → Text → Broker → Broker
migrate from to b = (remove_agent_locked from (arrive from to b)).0

unfoldable pub is_registered : Text → Broker → Bool
is_registered name b = is_some (find name b.owners)

-- The rooms, other than the caller's, in which the bare name is registered, sorted.
unfoldable pub find_other_room : Text → Text → Broker → List Text
find_other_room caller_room bare_name b = sort_by text_lt (
    map (λ key. room_of key)
      (select (λ key. same (bare key) bare_name && not (same (room_of key) caller_room))
        (map (λ (e : Text × Owner). e.0) b.owners)))

module _ (env : Env) where
  unfoldable pub set_owner : Text → Text → ℕ → Broker → Broker
  set_owner name session pid b =
      let owner : Owner = record { session = session; pid = pid; comm = env.probe_comm pid } in
      record b { owners = put name owner b.owners }

  -- The names that a session process owns, sorted, and whether it is still that session.
  unfoldable pub who_is : ℕ → Broker → List Text × Bool
  who_is session_pid b =
      let owned = select (λ (e : Text × Owner). e.1.pid == session_pid) b.owners in
      if session_pid == 0 then ([], false) else (
        sort_by text_lt (map (λ e. e.0) owned),
        any (λ e. not (is_empty e.1.comm) && same (env.probe_comm e.1.pid) e.1.comm) owned,
      )

  foreign : Text → Option Owner → Bool
  foreign session none = false
  foreign session (some cur) =
      not (is_empty cur.session) && not (is_empty session) && not (same cur.session session)

  -- The name is owned by a different session that is still alive.
  unfoldable pub foreign_live_owner : Text → Text → Broker → Bool
  unfolding foreign
  foreign_live_owner name session b = foreign session (find name b.owners) && alive env name b

  unfoldable pub register : Text → Broker → Broker
  unfolding ensure touch changed
  register name b = changed (touch env name (ensure name b))

  unfoldable pub register_owned : Text → Text → ℕ → Bool → Broker → Broker × Option Refusal
  unfolding ensure touch changed clear_warn set_owner
  register_owned name session pid force b =
      if not force && foreign_live_owner name session b then (b, some (ownership_msg name)) else (
        changed (set_owner name session pid (clear_warn name (touch env name (ensure name b)))),
        none,
      )

  unfoldable pub claim_identity : Text → Text → ℕ → Broker → Broker × Option Refusal
  unfolding ensure touch set_owner
  claim_identity name session pid b =
      if is_empty name || is_empty session || is_user_handle env.logins name
      then (b, none)
      else if foreign_live_owner name session b
      then (b, some (ownership_msg name))
      else (set_owner name session pid (touch env name (ensure name b)), none)

  unfoldable pub rename : Text → Text → Text → ℕ → Bool → Broker → Broker × Option Refusal
  unfolding ensure touch changed set_owner
  rename old new_name session pid force b =
      if is_empty new_name
      then (b, some new_name_required)
      else if same old new_name
      then (changed (set_owner new_name session pid (touch env new_name (ensure new_name b))), none)
      else if not force && foreign_live_owner new_name session b
      then (b, some (ownership_msg new_name))
      else (
        changed (set_owner new_name session pid (touch env new_name (migrate old new_name b))),
        none,
      )

  unfoldable pub join_room : Text → Text → Text → ℕ → Bool → Broker → Broker × Option Refusal
  unfolding ensure touch changed set_owner
  join_room from who session pid force b =
      let moved = if same from who then b else migrate from who b in
      if not force && foreign_live_owner who session b
      then (b, some (ownership_msg who))
      else (changed (set_owner who session pid (touch env who (ensure who moved))), none)
