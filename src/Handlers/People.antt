-- ===== src/Handlers/People.antt =====
-- daemon.go: the cases of `dispatch` about names, rooms, presence and processes.
use mess.Base.{
  ℕ, ◌*◌, Text, Bool, false, List, [], ◌∷◌, map, Option, none, some, pos, ◌==◌, if◌then◌else◌,
}
use mess.Rooms.{agent_key, bare, room_of}
use mess.State.{Broker}
use mess.Presence.{set_state, set_warn, set_busy, clear_busy, end_session}
use mess.Owners.{Refusal, register_owned, join_room, rename, remove_agent, who_is}
use mess.Durations.{hour}
use mess.Sessions.{host_session_pid_from}
use mess.Listing.{AgentInfo}
use mess.Requests.{who_of, to_of, has_slash}
use mess.Replies.{Response, done, failed, refused, slash_in_name, no_session_of, nobody_claims}
use mess.Handlers.{Outcome, Handler, answer, fails, counted, count_of, duration_or}

abbrev pub ping : Handler
ping host req b = answer b done

-- The answer to a call that may be refused, with the state it left.
abbrev pub refusal_or_done : Broker × Option Refusal → Outcome
refusal_or_done (b, none) = answer b done
refusal_or_done (b, some r) = answer b (failed (refused r))

unfoldable pub do_register : Handler
do_register host req b =
    if has_slash req.as_name
    then fails b (slash_in_name req.as_name)
    else refusal_or_done
        (register_owned host.env (who_of req) req.session req.session_pid req.force b)

unfoldable pub do_room_join : Handler
do_room_join host req b =
    if has_slash req.as_name
    then fails b (slash_in_name req.as_name)
    else refusal_or_done (
        join_room host.env (agent_key req.from_room req.as_name) (who_of req) req.session
          req.session_pid req.force b)

unfoldable pub do_rename : Handler
do_rename host req b =
    if has_slash req.to
    then fails b (slash_in_name req.to)
    else refusal_or_done (
        rename host.env (who_of req) (to_of host.env.logins req) req.session req.session_pid
          req.force b)

-- Removing a name that is not there is no error.
abbrev pub removal : Text → Broker → Outcome
removal name b = let (b', known) = remove_agent name b in answer b' (counted (count_of known))

-- `room-leave` and `unregister`, of the caller, and `rm`, of any agent.
unfoldable pub do_unregister : Handler
do_unregister host req b = removal (who_of req) b

unfoldable pub do_rm : Handler
do_rm host req b = removal (to_of host.env.logins req) b

unfoldable pub do_state : Handler
do_state host req b = answer (set_state host.env (who_of req) req.body b) done

unfoldable pub do_warn : Handler
do_warn host req b =
    let ttl = duration_or (pos (15 * 60 * 1000000000)) req.timeout in
    answer (set_warn host.env (who_of req) req.body ttl b) done

unfoldable pub do_busy : Handler
do_busy host req b =
    answer (set_busy host.env (who_of req) (duration_or (pos hour) req.timeout) b) done

unfoldable pub do_unbusy : Handler
do_unbusy host req b = answer (clear_busy host.env (who_of req) b) done

unfoldable pub do_session_end : Handler
do_session_end host req b = answer (end_session host.env (who_of req) b) done

owned_agent : Bool → Text → AgentInfo
owned_agent online key = record {
  name = bare key;
  room = room_of key;
  pending = 0;
  topics = [];
  listening = false;
  working = false;
  online = online;
  state = [];
  warning = [];
  oldest = 0;
  session_pid = 0;
}

named : ℕ → ℕ → List Text × Bool → Response
unfolding owned_agent
named pid session ([], online) = failed (nobody_claims pid session)
named pid session (k ∷ ks, online) = record done {
  agents = map (owned_agent online) (k ∷ ks);
  session_pid = session;
}

-- Who runs in the session that a process belongs to.
unfoldable pub do_whois : Handler
unfolding named
do_whois host req b =
    let session = host_session_pid_from host.env.probe_comm host.parent_pid req.session_pid in
    answer b (
      if session == 0
      then failed (no_session_of req.session_pid)
      else named req.session_pid session (who_is host.env session b))
