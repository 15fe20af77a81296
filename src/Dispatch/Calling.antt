-- ===== src/Dispatch/Calling.antt =====
-- The handlers: what each does to the state is a run of calls of the broker.
use mess.Sweeps.{expire_inbox}
use mess.Durations.{hour}
use mess.Bridges.{Bridged, bridge}
use mess.Direct.{send}
use mess.Invites.{lookup_invite, Declined, Invited, invite, Found}
use mess.Wire.{Message}
use mess.Daemon.{append_all, expire_durably, commit, journal_and_commit}
use mess.Handlers.Upkeep.{default_expire_max_age, expire_by, do_expire, do_cleanup}
use mess.Handlers.Invitations.{
  do_accept, wish_of, do_bridge, joined, turned_down, accept_found, entered, do_invite, invited,
}
use mess.Handlers.Mail.{
  extras_of, timer_for, do_sub, do_send, sent_with, await_receipt, after_wait, sent_out,
}
use mess.Rooms.{topic_key, agent_key}
use mess.Owners.{Refusal}
use mess.Handlers.People.{do_rename, do_room_join, refusal_or_done, do_register}
use mess.Base.{
  inl, inr, refl, ◌≡◌, ℕ, ◌*◌, ℤ, pos, same, Text, if◌then◌else◌, Bool, true, false, ◌&&◌, not,
  List, [], ◌∷◌, Option, none, some, is_empty,
}
use mess.State.{InviteInfo, Broker, Env}
use mess.Requests.{
  self_of, caller_room, parse_invite_target, topic_of, to_of, who_of, has_slash, Request,
}
use mess.Handlers.{need_duration, unknown_recipient, Host, Outcome, Handler, AckEnd}
use mess.Runs.{after_bridge, after_decline, after_invite, after_send, Call, step, run}
use mess.Runs.Tables.{either}
use mess.Dispatch.Own.{May}
use mess.Runs.Reaches.{AllCalls, onward, Reaches, nowhere, by_step, by_run, Reaches-trans}

-- A handler that does nothing to the state but call the broker in the name of its request.
abbrev pub Calling : (Call → Type 0) → Handler → Type 0
Calling others h =
    (host : Host) (req : Request)
    → AllCalls (May others host req) host.meanwhile
    → (b : Broker) → Reaches (May others host req) b (h host req b).broker

pub either_way :
    {P : Call → Type 0} (c : Bool) {b : Broker} (o p : Outcome)
    → Reaches P b o.broker
    → Reaches P b p.broker
    → Reaches P b (if c then o else p).broker
either_way true o p h k = h
either_way false o p h k = k

live_way :
    {P : Call → Type 0} (c : Bool) {b : Broker} (o p : Outcome)
    → Reaches P b o.broker
    → (c ≡ false → Reaches P b p.broker)
    → Reaches P b (if c then o else p).broker
live_way true o p h k = h
live_way false o p h k = k refl

pub option_way :
    {A : Type 0} {P : Call → Type 0} (o : Option A) {b : Broker} (f : Outcome) (g : A → Outcome)
    → Reaches P b f.broker
    → ((a : A) → Reaches P b (g a).broker)
    → Reaches P b (elim o as (λ _. Outcome) [ none ↦ f | some a ↦ g a ]).broker
option_way none f g h k = h
option_way (some a) f g h k = k a

refusal_or_done_call :
    {P : Call → Type 0} (b : Broker) (r : Broker × Option Refusal)
    → Reaches P b r.0
    → Reaches P b (refusal_or_done r).broker
refusal_or_done_call b (b', none) h = h
refusal_or_done_call b (b', some r) h = h

module _ (others : Call → Type 0) where
  pub register_calls : Calling others do_register
  unfolding do_register step
  register_calls host req all b = either_way (has_slash req.as_name) _ _ nowhere (
      refusal_or_done_call b _ (
        by_step host.env (Call.registers_owned (who_of req) req.session req.session_pid req.force)
          (inl refl) b))

  pub join_calls : Calling others do_room_join
  unfolding do_room_join step
  join_calls host req all b = either_way (has_slash req.as_name) _ _ nowhere (
      refusal_or_done_call b _ (
        by_step host.env
          (Call.joins_room (agent_key req.from_room req.as_name) (who_of req) req.session
            req.session_pid req.force)
          (inl (inl (refl, refl))) b))

  pub rename_calls : Calling others do_rename
  unfolding do_rename step
  rename_calls host req all b = either_way (has_slash req.to) _ _ nowhere (
      refusal_or_done_call b _ (
        by_step host.env
          (Call.renames (who_of req) (to_of host.env.logins req) req.session req.session_pid
            req.force)
          (inl (refl, refl)) b))

  sent_out_calls :
      (host : Host) (req : Request) (acked : Bool) (m : Message) (b : Broker)
      → Reaches (May others host req) b (sent_out host req acked m b).broker
  unfolding sent_out step
  sent_out_calls host req acked m b = by_step host.env (Call.judges m) (inl tt) b

  after_wait_calls :
      (end : AckEnd) (host : Host) (req : Request) (m : Message) (b : Broker)
      → Reaches (May others host req) b (after_wait end host req m b).broker
  unfolding after_wait
  after_wait_calls AckEnd.receipt host req m b = sent_out_calls host req true m b
  after_wait_calls AckEnd.no_receipt host req m b = sent_out_calls host req false m b
  after_wait_calls AckEnd.stopping host req m b = nowhere

  await_receipt_calls :
      (host : Host) (req : Request) (all : AllCalls (May others host req) host.meanwhile)
      (m : Message) (b : Broker)
      → Reaches (May others host req) b (await_receipt host req m b).broker
  unfolding await_receipt step
  await_receipt_calls host req all m b =
      option_way (timer_for req.timeout) _ _ (by_step host.env (Call.cancels_ack m.id) (inl tt) b)
        (λ t.
          Reaches-trans (by_run host.meanwhile all b)
            (after_wait_calls host.ack_end host req m (run host.meanwhile b)))

  sent_calls :
      (ack : Bool) (host : Host) (req : Request)
      (all : AllCalls (May others host req) host.meanwhile) (b : Broker)
      (o : Option (Broker × Message × Option ℕ))
      → Reaches (May others host req) b (after_send b o)
      → Reaches (May others host req) b (sent_with ack host req b o).broker
  unfolding sent_with after_send
  sent_calls ack host req all b none h = nowhere
  sent_calls false host req all b (some (b', m, ch)) h =
      Reaches-trans h (sent_out_calls host req false m b')
  sent_calls true host req all b (some (b', m, ch)) h =
      Reaches-trans h (await_receipt_calls host req all m b')

  pub send_calls : Calling others do_send
  unfolding do_send step
  send_calls host req all b =
      let to = to_of host.env.logins req in
      option_way (unknown_recipient host req to b) _ _
        (sent_calls req.ack host req all b
          (send host.env (self_of req) to req.body (extras_of req) b)
          (by_step host.env (Call.sends (self_of req) to req.body (extras_of req))
            (inl (refl, refl, refl)) b))
        (λ e. nowhere)

  pub sub_calls : Calling others do_sub
  unfolding do_sub step
  sub_calls host req all b =
      either_way (has_slash req.topic) _ _ nowhere
        (by_step host.env (Call.subscribes (who_of req) (topic_of req)) (inl (inl refl)) b)

  invited_calls :
      (host : Host) (req : Request) (b : Broker) (r : Invited)
      → Reaches (May others host req) b (after_invite b r)
      → Reaches (May others host req) b (invited host req b r).broker
  unfolding invited after_invite
  invited_calls host req b (Invited.sent b' m) h = h
  invited_calls host req b (Invited.refused e) h = nowhere

  pub invite_calls : Calling others do_invite
  unfolding do_invite step
  invite_calls host req all b =
      let to = to_of host.env.logins req in
      let (topic, room) = parse_invite_target req.invite (caller_room req) in
      option_way (unknown_recipient host req to b) _ _
        (invited_calls host req b (invite host.env (self_of req) to topic room req.body b) (
          by_step host.env (Call.invites (self_of req) to topic room req.body)
            (inl (refl, refl, refl)) b))
        (λ e. nowhere)

  entered_calls :
      {P : Call → Type 0} (env : Env) (token : Text) (inv : InviteInfo)
      (p : P (Call.clears_invite token)) (b : Broker) (r : Broker × Option Refusal)
      → Reaches P b r.0
      → Reaches P b (entered token inv r).broker
  unfolding entered step
  entered_calls env token inv p b (b', none) h =
      Reaches-trans h (by_step env (Call.clears_invite token) p b')
  entered_calls env token inv p b (b', some r) h = h

  accept_found_calls :
      (host : Host) (req : Request) (b : Broker) (f : Found)
      → Reaches (May others host req) b (accept_found host req b f).broker
  unfolding accept_found step
  accept_found_calls host req b (Found.failed e) = nowhere
  accept_found_calls host req b (Found.invitation inv) =
      either_way (not (is_empty inv.topic)) _ _
        (onward host.env (Call.subscribes (self_of req) (topic_key inv.room inv.topic))
          (inl (inr refl)) (by_step host.env (Call.clears_invite req.thread_id) (inl refl) _))
        (either_way
          (not (is_empty (caller_room req))
            && not (same (caller_room req) inv.room)
            && not req.force)
          _ _ nowhere
          (entered_calls host.env req.thread_id inv (inl refl) b _ (
            by_step host.env
              (Call.joins_room (self_of req) (agent_key inv.room req.as_name) req.session
                req.session_pid req.force)
              (inl (inr refl)) b)))

  pub accept_calls : Calling others do_accept
  unfolding do_accept
  accept_calls host req all b =
      accept_found_calls host req b (lookup_invite (self_of req) req.thread_id b)

  pub turned_down_calls :
      (host : Host) (req : Request) (b : Broker) (r : Declined)
      → Reaches (May others host req) b (after_decline b r)
      → Reaches (May others host req) b (turned_down host req b r).broker
  unfolding turned_down after_decline
  turned_down_calls host req b (Declined.told b' inv m) h = h
  turned_down_calls host req b (Declined.not_declined e) h = nowhere
  turned_down_calls host req b Declined.no_inviter h = nowhere

  joined_calls :
      {P : Call → Type 0} (b : Broker) (r : Bridged)
      → Reaches P b (after_bridge b r)
      → Reaches P b (joined b r).broker
  unfolding joined after_bridge
  joined_calls b (Bridged.bridged b' br) h = h
  joined_calls b (Bridged.no_bridge e) h = nowhere

  pub bridge_calls : Calling others do_bridge
  unfolding do_bridge step
  bridge_calls host req all b =
      either_way
        (not (is_empty req.local_room) && not (same req.local_room req.room) && not req.force) _ _
        nowhere
        (joined_calls b (bridge host.env (wish_of req) req.force b)
          (by_step host.env (Call.bridges (wish_of req) req.force) (inl tt) b))

  pub cleanup_calls : Calling others do_cleanup
  unfolding do_cleanup step
  cleanup_calls host req all b =
      option_way (need_duration (pos (24 * hour)) req.timeout) _ _ nowhere
        (λ max_age. by_step host.env (Call.cleans_up max_age req.peek) (inl refl) b)

  journal_and_commit_calls :
      {P : Call → Type 0} (later : Env) (max_age : ℤ) (journal : Option (Message → Bool))
      (due : List Message) (live : P (Call.expires max_age false)) (b : Broker)
      → Reaches P b (journal_and_commit later max_age journal due b).0
  unfolding journal_and_commit commit step
  journal_and_commit_calls later max_age journal [] live b = nowhere
  journal_and_commit_calls later max_age none (m ∷ ms) live b =
      by_step later (Call.expires max_age false) live b
  journal_and_commit_calls {P = P} later max_age (some ok) (m ∷ ms) live b =
      either (λ (r : Broker × List Message × List Message). Reaches P b r.0)
        (append_all ok (m ∷ ms)).1 _ _ (by_step later (Call.expires max_age false) live b) nowhere

  pub expire_calls : Calling others do_expire
  unfolding do_expire expire_by expire_durably
  expire_calls host req all b =
      option_way (need_duration default_expire_max_age req.timeout) _ _ nowhere (λ max_age.
        live_way req.peek _ _ nowhere (λ live.
          journal_and_commit_calls host.later max_age host.writes
            (expire_inbox host.env max_age true b).1 (inl (refl, live)) b))
