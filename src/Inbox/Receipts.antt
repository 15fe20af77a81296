-- ===== src/Inbox/Receipts.antt =====
-- The read receipts of the messages that a read takes.
use mess.Base.{
  ℕ, ◌≡◌, refl, ◌∙◌, ◌⊎◌, inl, inr, true, List, [], ◌∷◌, arith, All, Text, some, find, find-delete,
  has,
}
use mess.Wire.{Message}
use mess.State.{Broker}
use mess.Inbox.{fire_ack, fire_acks}

-- A receipt that was asked for and is still awaited has been signalled.
abbrev pub Receipt : Broker → Broker → Message → Type 0
Receipt before after m =
    (ch : ℕ)
    → m.ack_requested ≡ true
    → find m.id before.pending_acks ≡ some ch
    → has ch after.fired ≡ true

pub fire_acks-agents : (ms : List Message) (b : Broker) → (fire_acks ms b).agents ≡ b.agents
unfolding fire_acks
fire_acks-agents [] b = refl
fire_acks-agents (m ∷ ms) b = fire_acks-agents ms (fire_ack m b) ∙ unfold fire_ack in refl

fire_ack_mono :
    (ch : ℕ) (m : Message) (b : Broker) → has ch b.fired ≡ true → has ch (fire_ack m b).fired ≡ true
unfolding fire_ack has
fire_ack_mono ch m b h = ground arith

fire_acks_mono :
    (ch : ℕ) (ms : List Message) (b : Broker)
    → has ch b.fired ≡ true
    → has ch (fire_acks ms b).fired ≡ true
unfolding fire_acks
fire_acks_mono ch [] b h = h
fire_acks_mono ch (m ∷ ms) b h = fire_acks_mono ch ms (fire_ack m b) (fire_ack_mono ch m b h)

fire_ack_self :
    (ch : ℕ) (m : Message) (b : Broker)
    → m.ack_requested ≡ true
    → find m.id b.pending_acks ≡ some ch
    → has ch (fire_ack m b).fired ≡ true
unfolding fire_ack has
fire_ack_self ch m b asked awaited = ground arith

-- Another receipt is still awaited, or it was this one.
fire_ack-other :
    (ch : ℕ) (k : Text) (m : Message) (b : Broker)
    → find k b.pending_acks ≡ some ch
    → (find k (fire_ack m b).pending_acks ≡ some ch) ⊎ (has ch (fire_ack m b).fired ≡ true)
unfolding fire_ack has
fire_ack-other ch k m b awaited = ground (arith, find-delete m.id k b.pending_acks)

weaken :
    (ms : List Message) (m : Message) (rest : List Message) (b : Broker)
    → All (Receipt (fire_ack m b) (fire_acks rest (fire_ack m b))) ms
    → All (Receipt b (fire_acks rest (fire_ack m b))) ms
weaken [] m rest b h = tt
weaken (x ∷ ms) m rest b (h, hs) = (
  λ ch asked awaited. elim (fire_ack-other ch x.id m b awaited) [
    | inl still ↦ h ch asked still
    | inr done ↦ fire_acks_mono ch rest (fire_ack m b) done
  ],
  weaken ms m rest b hs,
)

pub fire_acks-Receipt : (ms : List Message) (b : Broker) → All (Receipt b (fire_acks ms b)) ms
unfolding fire_acks
fire_acks-Receipt [] b = tt
fire_acks-Receipt (m ∷ ms) b = (
  λ ch asked awaited. fire_acks_mono ch ms (fire_ack m b) (fire_ack_self ch m b asked awaited),
  weaken ms m ms b (fire_acks-Receipt ms (fire_ack m b)),
)
