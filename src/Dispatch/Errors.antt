-- ===== src/Dispatch/Errors.antt =====
-- What a request that is answered with an error leaves behind.
use mess.Handlers.Reading.{do_ps, do_replay, do_drain, do_thread_list, do_log, do_export}
use mess.Runs.Tables.{either}
use mess.Invites.{lookup_invite, Found}
use mess.Handlers.People.{
  do_rm, do_session_end, do_unbusy, do_busy, do_warn, do_state, refusal_or_done, do_rename,
  do_room_join, do_register, do_unregister, do_whois,
}
use mess.Owners.{rename, join_room, register_owned, Refusal}
use mess.Base.{
  is_empty, ℕ, ◌≡◌, refl, Text, codes, Bool, true, false, ◌&&◌, not, [], Option, none, some, find,
  same, Bool-cases, inl, inr, arith, is_some, any, Every, nothing, ◌▹◌, Every-find,
}
use mess.State.{InviteInfo, Env, Broker}
use mess.Requests.{trim_hash, caller_room, self_of, Request}
use mess.Replies.{Response}
use mess.Handlers.Mail.{do_unsub, do_pub, do_sub, do_send, sent_out, do_broadcast}
use mess.Handlers.Invitations.{
  do_bridges, do_unbridge, do_invites, entered, accept_found, do_invite, do_accept, do_decline,
  do_bridge,
}
use mess.Handlers.Upkeep.{do_stop, do_cleanup, do_expire}
use mess.Handlers.{Host, Outcome, Handler}
use mess.Dispatch.{quiet_handlers, answered, dispatch}

abbrev is_error : Response → Bool
is_error r = is_some r.error

-- The state is the same, and the journal as well.
abbrev Untouched : Broker → Outcome → Type 0
Untouched b o = (any is_error o.replies ≡ true) → (o.broker ≡ b) × (o.journaled ≡ [])

abbrev Untouching : Handler → Type 0
Untouching h = (host : Host) (req : Request) (b : Broker) → Untouched b (h host req b)

refusal_or_done-Untouched :
    (b : Broker) (r : Broker × Option Refusal)
    → (is_some r.1 ≡ true → r.0 ≡ b)
    → Untouched b (refusal_or_done r)
unfolding any
refusal_or_done-Untouched b (b', none) k h = cc
refusal_or_done-Untouched b (b', some r) k h = (k refl, refl)

register-Untouched : Untouching do_register
unfolding do_register register_owned any
register-Untouched host req b = ground arith

join-Untouched : Untouching do_room_join
unfolding do_room_join join_room any
join-Untouched host req b = ground arith

rename-Untouched : Untouching do_rename
unfolding do_rename rename any
rename-Untouched host req b = ground arith

invite-Untouched : Untouching do_invite
unfolding do_invite any
invite-Untouched host req b = ground arith

pub join_room_refused :
    (env : Env) (from who session : Text) (pid : ℕ) (force : Bool) (b : Broker)
    → is_some (join_room env from who session pid force b).1 ≡ true
    → (join_room env from who session pid force b).0 ≡ b
unfolding join_room
join_room_refused env from who session pid force b h = ground arith

entered-Untouched :
    (token : Text) (inv : InviteInfo) (b : Broker) (r : Broker × Option Refusal)
    → (is_some r.1 ≡ true → r.0 ≡ b)
    → Untouched b (entered token inv r)
unfolding entered any
entered-Untouched token inv b (b', none) k h = cc
entered-Untouched token inv b (b', some r) k h = (k refl, refl)

accept_found-Untouched :
    (host : Host) (req : Request) (b : Broker) (f : Found) → Untouched b (accept_found host req b f)
unfolding accept_found any
accept_found-Untouched host req b (Found.failed e) = λ h. (refl, refl)
accept_found-Untouched host req b (Found.invitation inv) =
    either (Untouched b) (not (is_empty inv.topic)) _ _ (λ h. cc)
      (either (Untouched b)
        (not (is_empty (caller_room req)) && not (same (caller_room req) inv.room) && not req.force)
        _ _ (λ h. (refl, refl))
        (entered-Untouched req.thread_id inv b _
          (join_room_refused host.env _ _ req.session req.session_pid req.force b)))

accept-Untouched : Untouching do_accept
unfolding do_accept
accept-Untouched host req b =
    accept_found-Untouched host req b (lookup_invite (self_of req) req.thread_id b)

decline-Untouched : Untouching do_decline
unfolding do_decline any
decline-Untouched host req b = ground arith

bridge-Untouched : Untouching do_bridge
unfolding do_bridge any
bridge-Untouched host req b = ground arith

sub-Untouched : Untouching do_sub
unfolding do_sub any
sub-Untouched host req b = ground arith

whois-Untouched : Untouching do_whois
unfolding do_whois any
whois-Untouched host req b h = (refl, refl)

cleanup-Untouched : Untouching do_cleanup
unfolding do_cleanup any
cleanup-Untouched host req b = ground arith

expire-Untouched : Untouching do_expire
unfolding do_expire any
expire-Untouched host req b = ground arith

export-Untouched : Untouching do_export
unfolding do_export
export-Untouched host req b h = (refl, refl)

log-Untouched : Untouching do_log
unfolding do_log
log-Untouched host req b h = (refl, refl)

-- A message that was sent without a request for a receipt.
send-Untouched :
    (host : Host) (req : Request) (b : Broker) → req.ack ≡ false → Untouched b (do_send host req b)
unfolding do_send any sent_out
send-Untouched host req b a = ground arith

quiet-Untouched : Every Untouching quiet_handlers
unfolding any do_unregister do_broadcast do_pub do_invites do_unsub do_unbridge do_bridges
    do_thread_list do_state do_warn do_busy do_unbusy do_session_end do_rm do_drain do_replay do_ps
    do_stop
quiet-Untouched =
    (λ host req b h. cc)
    ▹ register-Untouched
    ▹ join-Untouched
    ▹ (λ host req b h. cc)
    ▹ (λ host req b h. cc)
    ▹ (λ host req b h. cc)
    ▹ invite-Untouched
    ▹ accept-Untouched
    ▹ decline-Untouched
    ▹ (λ host req b h. cc)
    ▹ whois-Untouched
    ▹ sub-Untouched
    ▹ (λ host req b h. cc)
    ▹ bridge-Untouched
    ▹ (λ host req b h. cc)
    ▹ (λ host req b h. cc)
    ▹ export-Untouched
    ▹ (λ host req b h. cc)
    ▹ log-Untouched
    ▹ (λ host req b h. cc)
    ▹ (λ host req b h. cc)
    ▹ (λ host req b h. cc)
    ▹ (λ host req b h. cc)
    ▹ (λ host req b h. cc)
    ▹ (λ host req b h. cc)
    ▹ (λ host req b h. cc)
    ▹ (λ host req b h. cc)
    ▹ (λ host req b h. cc)
    ▹ rename-Untouched
    ▹ cleanup-Untouched
    ▹ expire-Untouched
    ▹ (λ host req b h. cc)
    ▹ (λ host req b h. cc)
    ▹ nothing

and_false : (p q : Bool) → p && q ≡ false → p ≡ true → q ≡ false
and_false p q h e = ground arith

answered-Untouched :
    (o : Option Handler) (host : Host) (req : Request) (b : Broker)
    → ((h : Handler) → o ≡ some h → Untouched b (h host req b))
    → Untouched b (answered o host req b)
unfolding answered
answered-Untouched none host req b all = λ h. (refl, refl)
answered-Untouched (some g) host req b all = all g refl

module _ (host : Host) (req : Request) (b : Broker) where
  -- A request that dispatch answers with an error leaves the state that dispatch was given, which is
  -- the one after the caller's claim of its name, and adds nothing to the journal. A message sent with
  -- a request for a receipt is set apart, as it may have been delivered when its wait fails; recv, ask,
  -- await and listen do not come to dispatch.
  pub dispatch_error :
      same (codes "send") req.op && req.ack ≡ false
      → any is_error (dispatch host req b).replies ≡ true
      → ((dispatch host req b).broker ≡ b) × ((dispatch host req b).journaled ≡ [])
  unfolding dispatch find answered
  dispatch_error plain =
      let r : Request = record req { topic = trim_hash req.topic } in
      elim (Bool-cases (same (codes "send") req.op)) [
        | inl e ↦
            rw e (send-Untouched host r b (and_false (same (codes "send") req.op) req.ack plain e))
        | inr e ↦ rw e (
            answered-Untouched (find req.op quiet_handlers) host r b
              (λ h f. Every-find req.op quiet_handlers quiet-Untouched f host r b))
      ]
