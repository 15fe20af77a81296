-- ===== src/Dispatch/Refines.antt =====
-- What a request does to the state is a run of calls of the broker.
use mess.Dispatch.Calling.{
  expire_calls, cleanup_calls, rename_calls, bridge_calls, sub_calls, turned_down_calls,
  accept_calls, invite_calls, join_calls, register_calls, send_calls, Calling,
}
use mess.Handlers.Reading.{do_ps, do_replay, do_drain, do_log, do_thread_list, do_export}
use mess.Durations.{hour}
use mess.Invites.{decline}
use mess.Handlers.Upkeep.{do_stop}
use mess.Handlers.Invitations.{do_bridges, do_unbridge, do_invites, do_decline}
use mess.Handlers.Mail.{do_unsub, do_pub, do_broadcast}
use mess.Handlers.People.{
  do_session_end, do_unbusy, do_busy, do_warn, do_state, do_whois, do_rm, do_unregister,
}
use mess.Base.{
  inl, inr, ◌*◌, pos, ◌≡◌, refl, Option, none, some, find, Every, nothing, ◌▹◌, Every-find,
}
use mess.State.{Broker}
use mess.Requests.{trim_hash, attach_from_request, self_of, topic_of, to_of, who_of, Request}
use mess.Handlers.{duration_or, Host, Handler}
use mess.Runs.{Call, step}
use mess.Dispatch.Own.{May, others_May}
use mess.Runs.Reaches.{AllCalls, Reaches, nowhere, by_step}
use mess.Dispatch.{handlers, answered, dispatch}

handlers_call : (others : Call → Type 0) → Every (Calling others) handlers
unfolding do_unregister do_broadcast do_pub do_decline do_invites do_whois do_unsub do_unbridge
    do_bridges do_export do_thread_list do_log do_state do_warn do_busy do_unbusy do_session_end
    do_rm do_drain do_replay do_ps do_stop step
handlers_call others =
    send_calls others
    ▹ (λ host req all b. nowhere)
    ▹ register_calls others
    ▹ join_calls others
    ▹ (λ host req all b. by_step host.env (Call.removes (who_of req)) (inl (inl refl)) b)
    ▹ (λ host req all b.
        by_step host.env (Call.broadcasts (self_of req) req.room req.body req.loud req.host_wide)
          (inl (refl, refl, refl)) b)
    ▹ (λ host req all b.
        by_step host.env
          (Call.publishes (self_of req) (topic_of req) req.body req.thread_id
            (attach_from_request req))
          (inl (refl, refl)) b)
    ▹ invite_calls others
    ▹ accept_calls others
    ▹ (λ host req all b.
        turned_down_calls others host req b
          (decline host.env (self_of req) req.thread_id req.body b)
          (by_step host.env (Call.declines (self_of req) req.thread_id req.body) (inl (refl, refl))
            b))
    ▹ (λ host req all b. nowhere)
    ▹ (λ host req all b. nowhere)
    ▹ sub_calls others
    ▹ (λ host req all b.
        by_step host.env (Call.unsubscribes (who_of req) (topic_of req)) (inl refl) b)
    ▹ bridge_calls others
    ▹ (λ host req all b. by_step host.env (Call.unbridges req.bridge_id) (inl refl) b)
    ▹ (λ host req all b. nowhere)
    ▹ (λ host req all b. nowhere)
    ▹ (λ host req all b. nowhere)
    ▹ (λ host req all b. nowhere)
    ▹ (λ host req all b.
        by_step host.env (Call.sets_state (who_of req) req.body) (inl (refl, refl)) b)
    ▹ (λ host req all b.
        by_step host.env
          (Call.sets_warn (who_of req) req.body
            (duration_or (pos (15 * 60 * 1000000000)) req.timeout))
          (inl (refl, refl)) b)
    ▹ (λ host req all b.
        by_step host.env (Call.sets_busy (who_of req) (duration_or (pos hour) req.timeout))
          (inl refl) b)
    ▹ (λ host req all b. by_step host.env (Call.clears_busy (who_of req)) (inl refl) b)
    ▹ (λ host req all b. by_step host.env (Call.ends_session (who_of req)) (inl refl) b)
    ▹ (λ host req all b.
        by_step host.env (Call.removes (to_of host.env.logins req)) (inl (inr refl)) b)
    ▹ (λ host req all b. by_step host.env (Call.reads_quietly (who_of req) req.max) (inl refl) b)
    ▹ (λ host req all b. nowhere)
    ▹ (λ host req all b. by_step host.env (Call.removes (who_of req)) (inl (inl refl)) b)
    ▹ rename_calls others
    ▹ cleanup_calls others
    ▹ expire_calls others
    ▹ (λ host req all b. nowhere)
    ▹ (λ host req all b. nowhere)
    ▹ nothing

answered_calls :
    {P : Call → Type 0} (o : Option Handler) (host : Host) (req : Request) (b : Broker)
    → ((h : Handler) → o ≡ some h → Reaches P b (h host req b).broker)
    → Reaches P b (answered o host req b).broker
unfolding answered
answered_calls none host req b all = nowhere
answered_calls (some h) host req b all = all h refl

-- The state that the dispatch of a request leaves is one that calls in its name lead to, and others'
-- calls meanwhile.
pub dispatch_calls :
    (others : Call → Type 0) (host : Host) (req : Request)
    → AllCalls others host.meanwhile
    → (b : Broker) → Reaches (May others host req) b (dispatch host req b).broker
unfolding dispatch self_of who_of to_of mess.Requests.caller_room
dispatch_calls others host req all b =
    let r : Request = record req { topic = trim_hash req.topic } in
    answered_calls (find req.op handlers) host r b (λ h e.
      Every-find req.op handlers (handlers_call others) e host r
        (others_May others host r host.meanwhile all) b)
