-- ===== src/Inbox/Reads.antt =====
-- Reading an inbox: what is returned, what stays, what the history and the receipts get.
use mathlib.Core.List.{Perm, Sublist}
use mathlib.Core.List.Perm
use mathlib.Core.List.Sublist
use mess.Base.{
  ℕ, ◌≡◌, ◌≢◌, refl, sym, ◌∙◌, Bool, true, false, List, [], ◌∷◌, ◌++◌, arith, All, select,
  if◌then◌else◌, Text, same, same_refl, ne→same, last_n,
}
use mess.Wire.{Message}
use mess.State.{Agent, Broker, Env}
use mess.Core.{max_history, agent_at, ensure, touch, changed, update_agent}
use mess.Core.Frame.{
  agent_at-ensure, agent_at-touch, agent_at-changed, agent_at-update_agent, agent_at-agents,
}
use mess.Inbox.{split, fire_acks, consume, settle, drain_matching, drain_by}
use mess.Inbox.Split.{limit, split-limit, split-perm, split-sublist}
use mess.Inbox.Receipts.{Receipt, fire_acks-agents, fire_acks-Receipt}

-- What a read of `name` under a limit returns.
abbrev pub taken : Text → ℕ → (Message → Bool) → Broker → List Message
taken name max p b = limit max (select p (agent_at name b).inbox)

abbrev IsEmpty : List Message → Type 0
IsEmpty [] = Unit
IsEmpty (m ∷ ms) = ⊥

-- The history of an agent after a read took `out`.
abbrev pub remember : List Message → List Message → List Message
remember history [] = history
remember history (m ∷ ms) = last_n max_history (history ++ m ∷ ms)

-- The agent's own state after messages were taken.
abbrev settled : List Message → List Message → Agent → Agent
settled [] keep a = a
settled (m ∷ ms) keep a = consume (m ∷ ms) keep a

settle-agent :
    (name other : Text) (out keep : List Message) (b : Broker)
    → agent_at other (settle name out keep b)
      ≡ (if same name other then settled out keep (agent_at name b) else agent_at other b)
unfolding settle
settle-agent name other [] keep b = unfold agent_at in ground arith
settle-agent name other (m ∷ ms) keep b = rw (
  agent_at-changed other (update_agent name (consume (m ∷ ms) keep) (fire_acks (m ∷ ms) b)),
  agent_at-update_agent other name (consume (m ∷ ms) keep) (fire_acks (m ∷ ms) b),
  agent_at-agents name (fire_acks (m ∷ ms) b) b (fire_acks-agents (m ∷ ms) b),
  agent_at-agents other (fire_acks (m ∷ ms) b) b (fire_acks-agents (m ∷ ms) b),
)

settle-Receipt :
    (name : Text) (out keep : List Message) (b : Broker)
    → All (Receipt b (settle name out keep b)) out
settle-Receipt name [] keep b = tt
settle-Receipt name (m ∷ ms) keep b =
    unfold settle changed update_agent in fire_acks-Receipt (m ∷ ms) b

settled-history :
    (out keep : List Message) (a : Agent) → (settled out keep a).history ≡ remember a.history out
unfolding consume
settled-history [] keep a = refl
settled-history (m ∷ ms) keep a = refl

settled-perm :
    (out keep : List Message) (a : Agent)
    → Perm a.inbox (out ++ keep)
    → Perm a.inbox (out ++ (settled out keep a).inbox)
unfolding consume
settled-perm [] keep a h = Perm.refl a.inbox
settled-perm (m ∷ ms) keep a h = h

settled-sublist :
    (out keep : List Message) (a : Agent)
    → Sublist keep a.inbox
    → Sublist (settled out keep a).inbox a.inbox
unfolding consume
settled-sublist [] keep a h = Sublist.refl a.inbox
settled-sublist (m ∷ ms) keep a h = h

module _ (env : Env) (name : Text) (max : ℕ) (p : Message → Bool) (b : Broker) where
  abbrev pub out : List Message
  out = (drain_by env name false max p b).1

  abbrev pub drained : Broker
  drained = (drain_by env name false max p b).0

  abbrev start : Broker
  start = touch env name (ensure name b)

  start-agent : agent_at name start ≡ agent_at name b
  start-agent = agent_at-touch env name name (ensure name b) ∙ agent_at-ensure name name b

  drain_by-out : (peek : Bool) → (drain_by env name peek max p b).1 ≡ taken name max p b
  unfolding drain_by drain_matching
  drain_by-out peek = rw start-agent (split-limit p max (agent_at name b).inbox)

  taken_out : List Message
  taken_out = (split p max 0 (agent_at name b).inbox).0

  kept : List Message
  kept = (split p max 0 (agent_at name b).inbox).1

  drain_by-agent :
      (other : Text)
      → agent_at other drained
        ≡ (if same name other then settled taken_out kept (agent_at name b) else agent_at other b)
  unfolding drain_by drain_matching taken_out kept
  drain_by-agent other =
      settle-agent name other (split p max 0 (agent_at name start).inbox).0
        (split p max 0 (agent_at name start).inbox).1 start
      ∙ rw
          (start-agent, agent_at-touch env other name (ensure name b), agent_at-ensure other name b)
          refl

  self-agent : agent_at name drained ≡ settled taken_out kept (agent_at name b)
  self-agent = drain_by-agent name ∙ rw same_refl refl

  -- Reading an inbox returns its first `max` matching messages in their order (all of them where
  -- `max` is 0). Returned and kept messages together are the old inbox, none lost and none
  -- doubled, and what is kept stays in order. The returned ones go to the end of the agent's
  -- history, which keeps the last 50; every read receipt that the sender of a returned message
  -- asked for, and that is still awaited, fires; and no other agent's state changes.
  pub drain_by_lem :
      (out ≡ taken name max p b)
      × Perm (agent_at name b).inbox (out ++ (agent_at name drained).inbox)
      × Sublist (agent_at name drained).inbox (agent_at name b).inbox
      × ((agent_at name drained).history ≡ remember (agent_at name b).history out)
      × All (Receipt b drained) out
      × ((other : Text) → other ≢ name → agent_at other drained ≡ agent_at other b)
  drain_by_lem = (
    drain_by-out false,
    rw (self-agent, out-split)
        (settled-perm taken_out kept (agent_at name b)
          (unfold taken_out kept in split-perm p max 0 (agent_at name b).inbox)),
    rw self-agent (
        settled-sublist taken_out kept (agent_at name b)
          (unfold kept in split-sublist p max 0 (agent_at name b).inbox)),
    rw (self-agent, out-split) (settled-history taken_out kept (agent_at name b)),
    unfold drain_by drain_matching touch ensure in
        settle-Receipt name (split p max 0 (agent_at name start).inbox).0
          (split p max 0 (agent_at name start).inbox).1 start,
    λ other h. drain_by-agent other ∙ rw (ne→same name other (λ e. h (sym e))) refl,
  )
    where
      out-split : out ≡ taken_out
      out-split =
          drain_by-out false ∙ sym (unfold taken_out in split-limit p max (agent_at name b).inbox)

  -- A peek returns what a read would, and leaves every agent as it was.
  pub drain_by_peek :
      ((drain_by env name true max p b).1 ≡ out)
      × ((other : Text) → agent_at other (drain_by env name true max p b).0 ≡ agent_at other b)
  drain_by_peek = (
    drain_by-out true ∙ sym (drain_by-out false),
    λ other.
        unfold drain_by drain_matching in
        (agent_at-touch env other name (ensure name b) ∙ agent_at-ensure other name b),
  )
