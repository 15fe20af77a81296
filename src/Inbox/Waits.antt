-- ===== src/Inbox/Waits.antt =====
-- A parked wait is never missed by a delivery.
use mess.Base.{
  ℕ, ◌≡◌, refl, ◌⊎◌, inl, inr, Bool, true, arith, Bool-cases, Text, same_refl, has, has-append,
  has-last, any,
}
use mess.Wire.{Message}
use mess.State.{Broker}
use mess.Core.{agent_at, update_agent, deliver_to, deliver_quiet, deliver_quiet_to}
use mess.Core.Frame.{agent_at-update_agent}
use mess.Inbox.{wait_chan_by}

module _ (name : Text) (p : Message → Bool) (b : Broker) where
  abbrev pub waiting : Broker
  waiting = (wait_chan_by name p b).0

  abbrev pub channel : ℕ
  channel = (wait_chan_by name p b).1

  -- The channel already holds its token, or it is among the agent's waiters.
  wait_chan_by_cases :
      (has channel waiting.fired ≡ true) ⊎ (has channel (agent_at name waiting).waiters ≡ true)
  unfolding wait_chan_by has
  wait_chan_by_cases = elim (Bool-cases (any p (agent_at name b).inbox)) [
    | inl e ↦ inl (rw e (ground arith))
    | inr e ↦ inr (rw (e, agent_at-update_agent, same_refl) (has-last b.next_chan _))
  ]

  wait_chan_by_ready : any p (agent_at name b).inbox ≡ true → has channel waiting.fired ≡ true
  unfolding wait_chan_by has
  wait_chan_by_ready e = rw e (ground arith)

module _ (name : Text) (ch : ℕ) (b : Broker) where
  abbrev pub Pending : Broker → Type 0
  Pending c = (has ch c.fired ≡ true) ⊎ (has ch (agent_at name c).waiters ≡ true)

  -- A delivery signals every pending wait.
  deliver_to-fires : (m : Message) → Pending b → has ch (deliver_to name m b).fired ≡ true
  unfolding deliver_to
  deliver_to-fires m h = ground (arith, has-append ch (agent_at name b).waiters b.fired)

  -- A quiet one keeps it pending.
  deliver_quiet_to-Pending : (m : Message) → Pending b → Pending (deliver_quiet_to name m b)
  unfolding deliver_quiet_to deliver_quiet
  deliver_quiet_to-Pending m (inl h) = inl (unfold update_agent in h)
  deliver_quiet_to-Pending m (inr h) =
      inr (rw (agent_at-update_agent name name (deliver_quiet m) b, same_refl name) h)

module _ (name : Text) (p : Message → Bool) (b : Broker) where
  -- A wait that is registered is signalled: at once, if a message that it is for is already queued,
  -- and otherwise by the next delivery. A quiet delivery sends no signal, but it does not drop the
  -- wait either: the delivery after it signals.
  pub wait_signalled :
      (q m : Message)
      → (any p (agent_at name b).inbox ≡ true
          → has (channel name p b) (waiting name p b).fired ≡ true)
        × (has (channel name p b) (deliver_to name m (waiting name p b)).fired ≡ true)
        × ((deliver_quiet_to name q (waiting name p b)).fired ≡ (waiting name p b).fired)
        × (has
              (channel name p b)
              (deliver_to name m (deliver_quiet_to name q (waiting name p b))).fired
            ≡ true)
  wait_signalled q m =
      let parked = wait_chan_by_cases name p b in
      (
        wait_chan_by_ready name p b,
        deliver_to-fires name (channel name p b) (waiting name p b) m parked,
        unfold deliver_quiet_to update_agent in refl,
        deliver_to-fires name (channel name p b) (deliver_quiet_to name q (waiting name p b)) m
            (deliver_quiet_to-Pending name (channel name p b) (waiting name p b) q parked),
      )
