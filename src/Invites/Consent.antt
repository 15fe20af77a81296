-- ===== src/Invites/Consent.antt =====
-- Who may invite, and who may redeem an invitation.
use mess.Base.{
  ℕ, Text, ◌≡◌, ◌≢◌, ◌↔◌, ap, ◌∙◌, ◌∷◌, true, ◌⊎◌, inl, inr, Option, none, some, [], arith, find,
  find-delete, find-put_self, Option-cases,
}
use mess.Rooms.{bare, room_of, topic_key}
use mess.Wire.{Message}
use mess.State.{InviteInfo, Broker, Env}
use mess.Topics.{is_subscribed}
use mess.Invites.{
  sent, may_invite, invite, deliver_invite, record_sent, remember_invite, invitation, failed,
  lookup_invite, no_open_invitation, extended_to, clear_invite,
}

-- An invitation is sent only into something that the sender is in: a topic that it follows, to an
-- agent of its own room, or the very room that it is in.
invite_authority :
    (env : Env) (from to topic room body : Text) (b b' : Broker) (m : Message)
    → invite env from to topic room body b ≡ sent b' m
    → ((topic ≢ [])
        × (is_subscribed from (topic_key (room_of from) topic) b ≡ true)
        × (room_of to ≡ room_of from))
      ⊎ ((topic ≡ []) × (room ≡ room_of from))
unfolding invite may_invite
invite_authority env from to [] room body b b' m e = ground arith
invite_authority env from to (c ∷ topic) room body b b' m e = ground arith

-- Only the agent that was invited may redeem a token, and it may as long as the invitation is open.
pub lookup_invite_iff :
    (who token : Text) (b : Broker) (inv : InviteInfo)
    → (lookup_invite who token b ≡ invitation inv)
      ↔ ((find token b.invites ≡ some inv) × (inv.invitee ≡ who))
unfolding lookup_invite
lookup_invite_iff who token b inv = (λ e. ground arith, λ h. ground arith)

-- The broker in which a sent invitation was recorded.
record_sent-remembers :
    (env : Env) (from to topic room : Text) (o : Option (Broker × Message × Option ℕ)) (b' : Broker)
    (m : Message)
    → record_sent env from to topic room o ≡ sent b' m
    → (c : Broker) × (b' ≡ remember_invite env m.id from to room topic c)
unfolding record_sent
record_sent-remembers env from to topic room none b' m e = absurd (cc)
record_sent-remembers env from to topic room (some (c, n, ch)) b' m e = (c, ground arith)

deliver_invite-remembers :
    (env : Env) (from to topic room body : Text) (b b' : Broker) (m : Message)
    → deliver_invite env from to topic room body b ≡ sent b' m
    → (c : Broker) × (b' ≡ remember_invite env m.id from to room topic c)
unfolding deliver_invite
deliver_invite-remembers env from to topic room body b b' m e =
    record_sent-remembers env from to topic room _ b' m e

sent-remembers :
    (env : Env) (from to topic room body : Text) (b b' : Broker) (m : Message)
    → invite env from to topic room body b ≡ sent b' m
    → (c : Broker) × (b' ≡ remember_invite env m.id from to room topic c)
unfolding invite
sent-remembers env from to topic room body b b' m e =
    elim (Option-cases (may_invite from to topic room b)) [
      | inl free ↦ deliver_invite-remembers env from to topic room body b b' m (ground arith)
      | inr (x, barred) ↦ absurd (ground arith)
    ]

-- Right after an invitation was sent, the agent that it was sent to can redeem it, under the id of the
-- message that carries it, and nobody else can; right after it is cleared, nobody can.
pub invite-lookup_invite :
    (env : Env) (from to topic room body : Text) (b b' : Broker) (m : Message)
    → invite env from to topic room body b ≡ sent b' m
    → (lookup_invite to m.id b'
        ≡ invitation
            (record { inviter = from; invitee = to; room = room; topic = topic; at = env.now }))
      × ((other : Text) → other ≢ to → lookup_invite other m.id b' ≡ failed (extended_to (bare to)))
      × ((who : Text) → lookup_invite who m.id (clear_invite m.id b') ≡ failed no_open_invitation)
unfolding remember_invite lookup_invite clear_invite
invite-lookup_invite env from to topic room body b b' m e =
    let (c, r) = sent-remembers env from to topic room body b b' m e in
    let info : InviteInfo = record {
      inviter = from;
      invitee = to;
      room = room;
      topic = topic;
      at = env.now;
    } in
    let known : find m.id b'.invites ≡ some info =
      ap (λ (x : Broker). find m.id x.invites) r ∙ find-put_self m.id info _ in
    (
      ground (arith, known),
      λ other ne. ground (arith, known),
      λ who. ground (arith, find-delete m.id m.id b'.invites),
    )
