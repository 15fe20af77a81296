-- ===== src/Runs/Upkeep.antt =====
-- Questions, invitations and bridges keep the state valid.
use mess.Base.{
  ℕ, ◌≤◌, Bool, true, Text, same, Option, none, some, find, Bool-cases, Option-cases, inl, inr,
  delete, Map, ◌≡◌, refl, arith, length, leb, ltb,
}
use mess.Wire.{Message}
use mess.State.{Broker, Env, AskInfo, InviteInfo}
use mess.Core.{changed}
use mess.Direct.{Extras, send, plain}
use mess.Asks.{
  send_ask, ambiguous_mention_tokens, open_asks, drain_answers, max_pending_asks, answers_ask,
}
use mess.Asks.Table.{ask_seq}
use mess.Pending.Bound.{Ordered, delete-Ordered}
use mess.Invites.{
  Invited, sent, refused, invite, deliver_invite, record_sent, remember_invite, may_invite,
  Declined, told, not_declined, no_inviter, decline, decline_found, lookup_invite, Found,
  invitation, failed, clear_invite, decline_text,
}
use mess.Bridges.{
  Wish, Bridged, bridged, no_bridge, bridge, create_bridge, unbridge, near_key, far_key,
  find_bridge, max_bridges,
}
use mess.Inbox.{drain_by}
use mess.Runs.Tables.{Distinct-put, Distinct-delete, either}
use mess.Runs.Helpers.{IsValid}
use mess.Runs.Operations.{SendIsValid, send-IsValid}
use mess.Runs.Reading.{drain_by-IsValid}
use mess.Runs.Questions.{
  remember_ask-IsValid, judge_all-Ordered, length-judge_all, length-delete-le,
}

abbrev pub AsksAre : Map AskInfo → Type 0
AsksAre m = Ordered ask_seq m × (length m ≤ max_pending_asks)

-- What an invitation leaves, if it was sent.
abbrev pub InvitedIsValid : Invited → Type 0
InvitedIsValid (sent b m) = IsValid b
InvitedIsValid (refused e) = Unit {0}

abbrev pub DeclinedIsValid : Declined → Type 0
DeclinedIsValid (told b inv m) = IsValid b
DeclinedIsValid (not_declined e) = Unit {0}
DeclinedIsValid no_inviter = Unit {0}

abbrev pub BridgedIsValid : Bridged → Type 0
BridgedIsValid (bridged b br) = IsValid b
BridgedIsValid (no_bridge e) = Unit {0}

asked-IsValid :
    (env : Env) (from to body : Text) (b : Broker) (o : Option (Broker × Message × Option ℕ))
    → send env from to body (record plain { is_ask = true }) b ≡ o
    → SendIsValid o
    → SendIsValid (send_ask env from to body b)
unfolding send_ask
asked-IsValid env from to body b none e v = rw (send_ask, e) tt
asked-IsValid env from to body b (some (b', m, ch)) e v =
    rw (send_ask, e) (remember_ask-IsValid m.id from to b' v)

record_sent-IsValid :
    (env : Env) (from to topic room : Text) (o : Option (Broker × Message × Option ℕ))
    → SendIsValid o
    → InvitedIsValid (record_sent env from to topic room o)
unfolding record_sent remember_invite
record_sent-IsValid env from to topic room none v = tt
record_sent-IsValid env from to topic room (some (b, m, ch)) v = v

decline_found-IsValid :
    (env : Env) (who token reason : Text) (inv : InviteInfo) (b : Broker)
    (o : Option (Broker × Message × Option ℕ))
    → send env who inv.inviter (decline_text who inv reason) plain b ≡ o
    → SendIsValid o
    → DeclinedIsValid (decline_found env who token reason (invitation inv) b)
unfolding decline_found clear_invite
decline_found-IsValid env who token reason inv b none e v = rw (decline_found, e) tt
decline_found-IsValid env who token reason inv b (some (b', m, ch)) e v = rw (decline_found, e) v

module _ (env : Env) (b : Broker) (v : IsValid b) where
  pub send_ask-IsValid : (from to body : Text) → SendIsValid (send_ask env from to body b)
  send_ask-IsValid from to body =
      let x : Extras = record plain { is_ask = true } in
      asked-IsValid env from to body b (send env from to body x b) refl
        (send-IsValid env b v from to body x)

  pub drain_answers-IsValid :
      (name token : Text) (peek : Bool) (max : ℕ)
      → IsValid (drain_answers env name token peek max b).0
  unfolding drain_answers
  drain_answers-IsValid name token peek max =
      let after = drain_by env name peek max (λ m. answers_ask m token b) b in
      let w = drain_by-IsValid env b v name peek max (λ m. answers_ask m token b) in
      (
        w.0,
        w.1,
        w.2,
        either AsksAre _ after.0.asks (delete token after.0.asks) w.3 (
          delete-Ordered ask_seq token after.0.asks w.3.0,
          omega (arith, length-delete-le token after.0.asks, w.3.1),
        ),
      )

  pub ambiguous_mention_tokens-IsValid : (m : Message) → IsValid (ambiguous_mention_tokens m b).0
  unfolding ambiguous_mention_tokens
  ambiguous_mention_tokens-IsValid m = elim (Bool-cases (ltb (length (open_asks m b.asks)) 2)) [
    | inl e ↦ rw e v
    | inr e ↦ rw e (
      v.0,
      v.1,
      v.2,
      (judge_all-Ordered m b.asks v.3.0, omega (arith, length-judge_all m b.asks, v.3.1)),
    )
  ]

  pub invite-IsValid :
      (from to topic room body : Text) → InvitedIsValid (invite env from to topic room body b)
  unfolding invite deliver_invite
  invite-IsValid from to topic room body = elim (Option-cases (may_invite from to topic room b)) [
    | inr (err, e) ↦ rw (invite, e) tt
    | inl e ↦
        rw (invite, e) (record_sent-IsValid env from to topic room _ (send-IsValid env b v _ _ _ _))
  ]

  pub decline-IsValid : (who token reason : Text) → DeclinedIsValid (decline env who token reason b)
  unfolding decline decline_found
  decline-IsValid who token reason = found (lookup_invite who token b)
    where
      found : (f : Found) → DeclinedIsValid (decline_found env who token reason f b)
      found (failed e) = tt
      found (invitation inv) =
          decline_found-IsValid env who token reason inv b _ refl (send-IsValid env b v _ _ _ _)

  pub bridge-IsValid : (w : Wish) (force : Bool) → BridgedIsValid (bridge env w force b)
  unfolding bridge create_bridge changed
  bridge-IsValid w force = elim (Bool-cases (same (near_key w) (far_key w))) [
    | inl e ↦ rw e tt
    | inr e ↦ elim (Bool-cases force) [
      | inl f ↦ rw (e, f) made
      | inr f ↦ elim (Option-cases (find_bridge (near_key w) (far_key w) w.dir b.bridges)) [
        | inr (br, g) ↦ rw (e, f, g) v
        | inl g ↦ elim (Bool-cases (leb max_bridges (length b.bridges))) [
          | inl h ↦ rw (e, f, g, h) tt
          | inr h ↦ rw (e, f, g, h) made
        ]
      ]
    ]
  ]
    where
      made : IsValid (create_bridge env w b).0
      made = (v.0, v.1, Distinct-put _ _ b.bridges v.2, v.3)

  pub unbridge-IsValid : (id : Text) → IsValid (unbridge id b).0
  unfolding unbridge changed
  unbridge-IsValid id = elim (Option-cases (find id b.bridges)) [
    | inl e ↦ rw (unbridge, e) v
    | inr (br, e) ↦ rw (unbridge, e) (v.0, v.1, Distinct-delete id b.bridges v.2, v.3)
  ]
