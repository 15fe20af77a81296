-- ===== src/Invites.antt =====
-- broker.go: invitations. `Invite`, `Decline` and the daemon's accepting of one are several steps
-- under the lock; the model runs them one behind the other. The texts of errors are constructors.
pub mod Consent
use mess.Base.{
  ℕ, Text, codes, Bool, true, false, not, List, [], ◌∷◌, ◌++◌, map, Option, none, some, Map, find,
  put, delete, is_empty, same, if◌then◌else◌, select, sort_by, ℤ, pos, lt_int, or_zero,
}
use mess.Rooms.{bare, room_of, topic_key, room_label}
use mess.Ids.{msg_seq}
use mess.Wire.{Message, InviteSummary}
use mess.State.{InviteInfo, Broker, Env}
use mess.Pending.{make_room}
use mess.Direct.{plain, send}
use mess.Topics.{is_subscribed}

abbrev pub max_pending_invites : ℕ
max_pending_invites = 1024

-- What an invitation is into: "#topic" or a room.
unfoldable pub what : Text → Text → Text
what room topic = if is_empty topic then room_label room else b'#' ∷ topic

pub data InviteError : Type 0 where
  not_subscribed : Text → InviteError
  other_room : Text → Text → Text → InviteError
  not_in_room : Text → Text → InviteError
  recipient_required : InviteError

pub data Invited : Type 0 where
  sent : Broker → Message → Invited
  refused : InviteError → Invited

unfoldable pub remember_invite : Env → Text → Text → Text → Text → Text → Broker → Broker
remember_invite env token inviter invitee room topic b = record b {
  invites =
      put token
        (record { inviter = inviter; invitee = invitee; room = room; topic = topic; at = env.now })
        (make_room (λ t (i : InviteInfo). msg_seq t) max_pending_invites b.invites);
}

-- The two rules about authority, for a topic and for a room.
unfoldable pub may_invite : Text → Text → Text → Text → Broker → Option InviteError
may_invite from to topic room b =
    if is_empty topic
    then if same room (room_of from) then none else some (not_in_room (room_of from) room)
    else if not (is_subscribed from (topic_key (room_of from) topic) b)
    then some (not_subscribed topic)
    else if same (room_of to) (room_of from)
    then none
    else some (other_room topic (room_of from) to)

unfoldable pub record_sent :
    Env → Text → Text → Text → Text → Option (Broker × Message × Option ℕ) → Invited
record_sent env from to topic room none = refused recipient_required
record_sent env from to topic room (some (b, m, ch)) =
    sent (remember_invite env m.id from to room topic b) m

unfoldable pub deliver_invite : Env → Text → Text → Text → Text → Text → Broker → Invited
deliver_invite env from to topic room body b =
    let label = what room topic in
    let text =
      if is_empty body then bare from ++ codes " invites you to join " ++ label else body in
    record_sent env from to topic room (send env from to text (record plain { invite = label }) b)

unfoldable pub invite : Env → Text → Text → Text → Text → Text → Broker → Invited
invite env from to topic room body b = elim (may_invite from to topic room b) [
  | some e ↦ refused e
  | none ↦ deliver_invite env from to topic room body b
]

pub data LookupError : Type 0 where
  no_open_invitation : LookupError
  extended_to : Text → LookupError

pub data Found : Type 0 where
  invitation : InviteInfo → Found
  failed : LookupError → Found

unfoldable pub lookup_invite : Text → Text → Broker → Found
lookup_invite who token b = elim (find token b.invites) [
  | none ↦ failed no_open_invitation
  | some inv ↦
      if same inv.invitee who then invitation inv else failed (extended_to (bare inv.invitee))
]

unfoldable pub clear_invite : Text → Broker → Broker
clear_invite token b = record b { invites = delete token b.invites }

pub data Declined : Type 0 where
  told : Broker → InviteInfo → Message → Declined
  not_declined : LookupError → Declined
  no_inviter : Declined

unfoldable pub decline_text : Text → InviteInfo → Text → Text
decline_text who inv reason =
    let text = bare who ++ codes " declined your invitation to " ++ what inv.room inv.topic in
    if is_empty reason then text else text ++ codes ": " ++ reason

unfoldable pub decline_found : Env → Text → Text → Text → Found → Broker → Declined
decline_found env who token reason (failed e) b = not_declined e
decline_found env who token reason (invitation inv) b =
    elim (send env who inv.inviter (decline_text who inv reason) plain b) [
      | none ↦ no_inviter
      | some (b', m, ch) ↦ told (clear_invite token b') inv m
    ]

unfoldable pub decline : Env → Text → Text → Text → Broker → Declined
unfolding decline_found
decline env who token reason b = decline_found env who token reason (lookup_invite who token b) b

summary : Text × InviteInfo → InviteSummary
summary (token, inv) = record {
  token = token;
  what = what inv.room inv.topic;
  from = bare inv.inviter;
  to = bare inv.invitee;
  time = inv.at;
}

by_seq : InviteSummary → InviteSummary → Bool
by_seq x y = lt_int (or_zero (pos 0) (msg_seq x.token)) (or_zero (pos 0) (msg_seq y.token))

-- Those received and those sent, oldest first; one to oneself counts as received.
unfoldable pub pending_invites : Text → Broker → List InviteSummary × List InviteSummary
unfolding summary by_seq
pending_invites who b =
    let received = select (λ (e : Text × InviteInfo). same who e.1.invitee) b.invites in
    let others = select (λ (e : Text × InviteInfo). not (same who e.1.invitee)) b.invites in
    (
      sort_by by_seq (map summary received),
      sort_by by_seq (map summary (select (λ e. same who e.1.inviter) others)),
    )
