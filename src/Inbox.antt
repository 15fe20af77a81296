-- ===== src/Inbox.antt =====
-- broker.go: reading an inbox, with or without consuming it, and the bounded histories. A `max` of 0
-- is no limit, as is any negative one in the source.
pub mod Split
pub mod Receipts
pub mod Reads
pub mod Waits
use mess.Base.{
  ℕ, zero, suc, ◌+◌, Text, Bool, true, false, ◌&&◌, ◌||◌, not, List, [], ◌∷◌, ◌++◌, Option, none,
  some, Map, find, put, delete, or_zero, is_empty, same, ltb, ◌==◌, if◌then◌else◌, contains, length,
  last_n, select, sort_by, any,
}
use mess.Rooms.{bare}
use mess.Wire.{Message, kind_direct}
use mess.State.{Agent, Broker, Env}
use mess.Core.{max_history, agent_at, ensure, update_agent, touch, changed}
use mess.Presence.{is_busy}

-- nil lets every kind through.
unfoldable pub match_kind : Message → Option (List Text) → Bool
match_kind m none = true
match_kind m (some kinds) = contains m.kind kinds

unfoldable pub in_thread : Text → Message → Bool
in_thread thread m = same m.thread_id thread || same m.id thread

unfoldable pub wakes : Message → Option (List Text) → Bool
unfolding match_kind
wakes m kinds = m.loud || match_kind m kinds && not m.quiet

place : Bool → Message → List Message × List Message → List Message × List Message
place true m (out, keep) = (m ∷ out, keep)
place false m (out, keep) = (out, m ∷ keep)

module _ (match : Message → Bool) (max : ℕ) where
  -- Whether one more message may be taken after `n`.
  abbrev pub room_for : ℕ → Bool
  room_for n = max == 0 || ltb n max

  -- The messages taken and the messages kept, with `n` taken before.
  unfoldable pub split : ℕ → List Message → List Message × List Message
  unfolding place
  split n [] = ([], [])
  split n (m ∷ ms) =
      let taken = match m && room_for n in place taken m (split (if taken then n + 1 else n) ms)

-- The read receipt of a consumed message.
unfoldable pub fire_ack : Message → Broker → Broker
fire_ack m b =
    let ch = if m.ack_requested then find m.id b.pending_acks else none in
    record b {
      fired = elim ch [ none ↦ b.fired | some c ↦ c ∷ b.fired ];
      pending_acks = elim ch [ none ↦ b.pending_acks | some _ ↦ delete m.id b.pending_acks ];
    }

unfoldable pub fire_acks : List Message → Broker → Broker
fire_acks [] b = b
fire_acks (m ∷ ms) b = fire_acks ms (fire_ack m b)

is_none_left : List Message → Bool
is_none_left [] = true
is_none_left (m ∷ ms) = false

-- The state of an agent after its messages were taken.
unfoldable pub consume : List Message → List Message → Agent → Agent
consume out keep a = record a { inbox = keep; history = last_n max_history (a.history ++ out) }

-- What taking messages does to the broker; taking none changes nothing.
unfoldable pub settle : Text → List Message → List Message → Broker → Broker
settle name [] keep b = b
settle name (m ∷ ms) keep b =
    changed (update_agent name (consume (m ∷ ms) keep) (fire_acks (m ∷ ms) b))

unfoldable pub drain_matching : Text → Bool → ℕ → (Message → Bool) → Broker → Broker × List Message
drain_matching name peek max match b =
    let (out, keep) = split match max 0 (agent_at name b).inbox in
    (if peek then b else settle name out keep b, out)

module _ (env : Env) where
  -- `b.ensure(name)`, `b.touch(name)`, then the drain.
  unfoldable pub drain_by : Text → Bool → ℕ → (Message → Bool) → Broker → Broker × List Message
  drain_by name peek max match b =
      drain_matching name peek max match (touch env name (ensure name b))

  unfoldable pub drain_kinds : Text → Bool → ℕ → Option (List Text) → Broker → Broker × List Message
  unfolding drain_by
  drain_kinds name peek max kinds b = drain_by name peek max (λ m. match_kind m kinds) b

  unfoldable pub drain : Text → Bool → ℕ → Broker → Broker × List Message
  unfolding drain_kinds
  drain name peek max b = drain_kinds name peek max none b

  -- The flag says that the drain ran.
  unfoldable pub drain_if_idle :
      Text → ℕ → Option (List Text) → Broker → Broker × List Message × Bool
  unfolding drain_by
  drain_if_idle name max kinds b =
      let (b', out) = drain_by name false max (λ m. match_kind m kinds) b in
      if is_busy env name b then (b, [], false) else (b', out, true)

  unfoldable pub drain_thread : Text → Text → Bool → ℕ → Broker → Broker × List Message
  unfolding drain_by
  drain_thread name thread peek max b = drain_by name peek max (in_thread thread) b

-- An operator's drain: no touch, no receipts, no history.
unfoldable pub drain_quiet : Text → ℕ → Broker → Broker × List Message
unfolding is_none_left
drain_quiet name max b = elim (find name b.agents) [
  | none ↦ (b, [])
  | some a ↦
      let (out, keep) = split (λ _. true) max 0 a.inbox in
      (
        if is_none_left out
            then b
            else changed (record b { agents = put name (record a { inbox = keep }) b.agents }),
        out,
      )
]

unfoldable pub cap_and_copy : List Message → ℕ → List Message
cap_and_copy h n = if n == 0 then h else last_n n h

unfoldable pub replay : Text → ℕ → Broker → List Message
unfolding cap_and_copy
replay name n b = elim (find name b.agents) [ none ↦ [] | some a ↦ cap_and_copy a.history n ]

unfoldable pub export_topic : Text → ℕ → Broker → List Message
unfolding cap_and_copy
export_topic topic max b = cap_and_copy (or_zero [] (find topic b.topic_history)) max

-- History, then inbox, by time.
unfoldable pub export_own : Text → ℕ → (Message → Bool) → Broker → List Message
unfolding cap_and_copy
export_own name max match b = elim (find name b.agents) [
  | none ↦ []
  | some a ↦
      cap_and_copy
        (sort_by (λ (x y : Message). ltb x.time y.time)
          (select match a.history ++ select match a.inbox))
        max
]

unfoldable pub export_thread : Text → Text → ℕ → Broker → List Message
unfolding export_own
export_thread name thread max b = export_own name max (in_thread thread) b

unfoldable pub export_direct : Text → Text → ℕ → Broker → List Message
unfolding export_own
export_direct name peer max b =
    export_own name max
      (λ m. same m.kind kind_direct && (same m.from (bare peer) || same m.to (bare peer))) b

unfoldable pub has_pending_by : Text → (Message → Bool) → Broker → Bool
has_pending_by name p b = elim (find name b.agents) [ none ↦ false | some a ↦ any p a.inbox ]

unfoldable pub has_pending : Text → Option (List Text) → Broker → Bool
unfolding has_pending_by
has_pending name kinds b = has_pending_by name (λ m. wakes m kinds) b

unfoldable pub has_pending_thread : Text → Text → Broker → Bool
unfolding has_pending_by
has_pending_thread name thread b = has_pending_by name (in_thread thread) b

-- A one-shot channel: it fires at once if a message passes, and otherwise waits for a delivery.
unfoldable pub wait_chan_by : Text → (Message → Bool) → Broker → Broker × ℕ
wait_chan_by name p b =
    let ch = b.next_chan in
    let b1 = record (ensure name b) { next_chan = ch + 1 } in
    (
      if any p (agent_at name b).inbox
          then record b1 { fired = ch ∷ b1.fired }
          else update_agent name (λ a. record a { waiters = a.waiters ++ ch ∷ [] }) b1,
      ch,
    )

unfoldable pub wait_chan : Text → Option (List Text) → Broker → Broker × ℕ
unfolding wait_chan_by
wait_chan name kinds b = wait_chan_by name (λ m. wakes m kinds) b

unfoldable pub wait_chan_thread : Text → Text → Broker → Broker × ℕ
unfolding wait_chan_by
wait_chan_thread name thread b = wait_chan_by name (in_thread thread) b

-- The queued messages and whether a listener is there.
unfoldable pub pending_count : Text → Broker → ℕ
pending_count name b = elim (find name b.agents) [ none ↦ 0 | some a ↦ length a.inbox ]
