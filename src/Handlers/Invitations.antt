-- ===== src/Handlers/Invitations.antt =====
-- daemon.go: the cases of `dispatch` about invitations and bridges.
use mess.Base.{
  Text, false, ◌&&◌, not, [], ◌∷◌, Option, none, some, is_empty, same, length, pos, if◌then◌else◌,
}
use mess.Rooms.{agent_key, bare, topic_key}
use mess.Wire.{Message}
use mess.State.{InviteInfo, Broker}
use mess.Snapshot.{bridge_snap}
use mess.Owners.{Refusal, join_room}
use mess.Topics.{subscribe}
use mess.Invites.{
  Invited, sent, refused, invite, what, Found, invitation, failed, lookup_invite, clear_invite,
  Declined, told, not_declined, no_inviter, decline, pending_invites,
}
use mess.Bridges.{Wish, Bridged, bridged, no_bridge, bridge, unbridge, list_bridges}
use mess.Requests.{
  Request, self_of, to_of, caller_room, parse_invite_target, parse_bridge_direction, trim_hash,
}
use mess.Replies.{
  Response, done, cannot_invite, no_invitation, accept_would_move, no_recipient, cannot_bridge,
  not_in_local_room,
}
use mess.Replies
use mess.Handlers.{
  Host, Outcome, Handler, answer, fails, counted, count_of, journal_append, duration_or,
  unknown_recipient,
}

-- An answer with the message that was sent for it.
abbrev pub announced : Host → Request → Message → Broker → Response → Outcome
announced host req m b r = record {
  broker = b;
  replies = r ∷ [];
  journaled = journal_append host req.room m;
  stops = false;
}

unfoldable pub invited : Host → Request → Broker → Invited → Outcome
invited host req b (sent b' m) =
    announced host req m b' (record done { id = m.id; invite = req.invite })
invited host req b (refused e) = fails b (cannot_invite e)

unfoldable pub do_invite : Handler
unfolding invited
do_invite host req b =
    let to = to_of host.env.logins req in
    let (topic, room) = parse_invite_target req.invite (caller_room req) in
    elim (unknown_recipient host req to b) [
      | some e ↦ fails b e
      | none ↦ invited host req b (invite host.env (self_of req) to topic room req.body b)
    ]

accepted : InviteInfo → Response
accepted inv = record done { invite = what inv.room inv.topic }

-- A move that was refused leaves the invitation open.
unfoldable pub entered : Text → InviteInfo → Broker × Option Refusal → Outcome
unfolding accepted
entered token inv (b, none) = answer (clear_invite token b) (accepted inv)
entered token inv (b, some r) = fails b (Replies.refused r)

-- An accept joins a topic, or moves to a room: out of another room only by force.
unfoldable pub accept_found : Host → Request → Broker → Found → Outcome
unfolding accepted entered
accept_found host req b (failed e) = fails b (no_invitation e)
accept_found host req b (invitation inv) =
    let cur = caller_room req in
    if not (is_empty inv.topic)
    then answer
        (clear_invite req.thread_id
          (subscribe host.env (self_of req) (topic_key inv.room inv.topic) b))
        (accepted inv)
    else if not (is_empty cur) && not (same cur inv.room) && not req.force
    then fails b (accept_would_move cur inv.room)
    else entered req.thread_id inv (
        join_room host.env (self_of req) (agent_key inv.room req.as_name) req.session
          req.session_pid req.force b)

unfoldable pub do_accept : Handler
unfolding accept_found
do_accept host req b = accept_found host req b (lookup_invite (self_of req) req.thread_id b)

unfoldable pub turned_down : Host → Request → Broker → Declined → Outcome
turned_down host req b (told b' inv m) =
    announced host req m b'
      (record done { invite = what inv.room inv.topic; notified = bare inv.inviter })
turned_down host req b (not_declined e) = fails b (no_invitation e)
turned_down host req b no_inviter = fails b no_recipient

unfoldable pub do_decline : Handler
unfolding turned_down
do_decline host req b =
    turned_down host req b (decline host.env (self_of req) req.thread_id req.body b)

unfoldable pub do_invites : Handler
do_invites host req b =
    let (received, others) = pending_invites (self_of req) b in
    answer b (record done { received = received; sent = others; count = length received })

-- The near side of a bridge is the room of the request, or one that is named.
unfoldable pub near_room : Request → Text
near_room req = if is_empty req.local_room then req.room else req.local_room

unfoldable pub wish_of : Request → Wish
unfolding near_room
wish_of req = record {
  local_room = near_room req;
  local_topic = req.topic;
  remote_room = req.remote_room;
  remote_topic = trim_hash req.remote_topic;
  dir = parse_bridge_direction req.direction;
  creator = req.as_name;
  ttl = duration_or (pos 0) req.timeout;
}

unfoldable pub joined : Broker → Bridged → Outcome
joined b (bridged b' br) = answer b' (record done { bridges = bridge_snap (br.id, br) ∷ [] })
joined b (no_bridge e) = fails b (cannot_bridge e)

unfoldable pub do_bridge : Handler
unfolding wish_of joined
do_bridge host req b =
    if not (is_empty req.local_room) && not (same req.local_room req.room) && not req.force
    then fails b (not_in_local_room req.local_room)
    else joined b (bridge host.env (wish_of req) req.force b)

unfoldable pub do_unbridge : Handler
do_unbridge host req b =
    let (b', known) = unbridge req.bridge_id b in answer b' (counted (count_of known))

unfoldable pub do_bridges : Handler
do_bridges host req b = answer b (record done { bridges = list_bridges host.env.now b })
