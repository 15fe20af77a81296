-- ===== src/Dispatch/Accepting.antt =====
-- What an accepted invitation does, and to whom.
use mess.Dispatch.Errors.{join_room_refused}
use mess.Invites.Consent.{lookup_invite_iff}
use mess.Owners.Guard.{session_in, session_of}
use mess.Topics.Subscriptions.{subscribe_lem}
use mess.Core.{ensure, touch, changed}
use mess.Rooms.{agent_key, topic_key}
use mess.Owners.{foreign_live_owner, migrate, set_owner, Refusal, join_room}
use mess.Handlers.Invitations.{do_accept, accept_found, entered}
use mess.Invites.{lookup_invite, Found, clear_invite}
use mess.Topics.{subscribe, is_subscribed}
use mess.Base.{
  find-put_self, ap, if◌then◌else◌, is_some, ◌||◌, find-delete, ◌≡◌, refl, Text, Bool, true, false,
  ◌&&◌, not, [], Option, none, some, ◌⊎◌, inl, inr, Bool-cases, arith, is_empty, same, find,
}
use mess.State.{Owner, Broker, InviteInfo}
use mess.Requests.{Request, self_of, caller_room}
use mess.Handlers.{Host, Outcome}

-- The caller follows the topic of the invitation, or is in its room, which it left another room for
-- by force only.
abbrev pub Joined : Request → InviteInfo → Broker → Type 0
Joined req inv c =
    ((is_empty inv.topic ≡ false)
      × (is_subscribed (self_of req) (topic_key inv.room inv.topic) c ≡ true))
    ⊎ ((is_empty inv.topic ≡ true)
        × (session_of (agent_key inv.room req.as_name) c ≡ some req.session)
        × (is_empty (caller_room req) || same (caller_room req) inv.room || req.force ≡ true))

-- Nothing happened, or an invitation that was open to the caller was used up.
abbrev pub Accepted : Request → Broker → Outcome → Type 0
Accepted req b o =
    ((o.broker ≡ b) × (o.journaled ≡ []))
    ⊎ ((inv : InviteInfo) × (find req.thread_id b.invites ≡ some inv)
        × (inv.invitee ≡ self_of req)
        × (find req.thread_id o.broker.invites ≡ none)
        × Joined req inv o.broker)

free : (p q r : Bool) → not p && not q && not r ≡ false → p || q || r ≡ true
free p q r h = ground arith

module _ (host : Host) (req : Request) (b : Broker) where
  cleared : (c : Broker) → find req.thread_id (clear_invite req.thread_id c).invites ≡ none
  unfolding clear_invite
  cleared c = ground (arith, find-delete req.thread_id req.thread_id c.invites)

  follows :
      (tk : Text) → is_subscribed (self_of req) tk (subscribe host.env (self_of req) tk b) ≡ true
  follows tk = ground (arith, (subscribe_lem host.env (self_of req) tk (self_of req) tk b).0)

  topic_joined :
      (tk : Text)
      → is_subscribed
          (self_of req)
          tk
          (clear_invite req.thread_id (subscribe host.env (self_of req) tk b))
        ≡ true
  unfolding clear_invite is_subscribed
  topic_joined tk = follows tk

  room_joined :
      (inv : InviteInfo) (r : Broker × Option Refusal)
      → (r.1 ≡ none → session_of (agent_key inv.room req.as_name) r.0 ≡ some req.session)
      → (is_some r.1 ≡ true → r.0 ≡ b)
      → find req.thread_id b.invites ≡ some inv
      → inv.invitee ≡ self_of req
      → is_empty inv.topic ≡ true
      → is_empty (caller_room req) || same (caller_room req) inv.room || req.force ≡ true
      → Accepted req b (entered req.thread_id inv r)
  unfolding entered clear_invite
  room_joined inv (b', none) own k f i t free = inr (inv, f, i, cleared b', inr (t, own refl, free))
  room_joined inv (b', some r) own k f i t free = inl (k refl, refl)

  join_room-owner :
      (from who : Text) (force : Bool)
      → (join_room host.env from who req.session req.session_pid force b).1 ≡ none
      → session_of who (join_room host.env from who req.session req.session_pid force b).0
        ≡ some req.session
  unfolding join_room set_owner changed
  join_room-owner from who force h =
      let moved = if same from who then b else migrate from who b in
      let owner : Owner = record {
        session = req.session;
        pid = req.session_pid;
        comm = host.env.probe_comm req.session_pid;
      } in
      elim (Bool-cases (not force && foreign_live_owner host.env who req.session b)) [
        | inl e ↦ absurd (ground (arith, e, h))
        | inr e ↦
            rw e (
              ap session_in
                (find-put_self who owner (touch host.env who (ensure who moved)).owners))
      ]

  accept_found_lem :
      (f : Found)
      → lookup_invite (self_of req) req.thread_id b ≡ f
      → Accepted req b (accept_found host req b f)
  unfolding accept_found
  accept_found_lem (Found.failed e) l = inl (refl, refl)
  accept_found_lem (Found.invitation inv) l =
      let (f, i) = (lookup_invite_iff (self_of req) req.thread_id b inv).0 l in
      elim (Bool-cases (is_empty inv.topic)) [
        | inr t ↦
            rw t (inr (inv, f, i, cleared _, inl (t, topic_joined (topic_key inv.room inv.topic))))
        | inl t ↦
            elim (Bool-cases (
              not (is_empty (caller_room req))
              && not (same (caller_room req) inv.room)
              && not req.force)) [
                | inl m ↦ rw (t, m) (inl (refl, refl))
                | inr m ↦
                    rw (t, m)
                      (room_joined inv _
                        (join_room-owner (self_of req) (agent_key inv.room req.as_name) req.force)
                        (join_room_refused host.env (self_of req) (agent_key inv.room req.as_name)
                          req.session req.session_pid req.force b)
                        f i t
                        (free (is_empty (caller_room req)) (same (caller_room req) inv.room)
                          req.force m))
              ]
      ]

  -- An accept changes nothing, or it uses up an invitation that was open under its token for the
  -- caller, who from then on follows the topic that it was for, or else owns its name in the room that
  -- it was for; and nobody is moved so out of another room who did not force it.
  pub do_accept_lem : Accepted req b (do_accept host req b)
  unfolding do_accept
  do_accept_lem = accept_found_lem (lookup_invite (self_of req) req.thread_id b) refl
