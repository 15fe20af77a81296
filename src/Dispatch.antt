-- ===== src/Dispatch.antt =====
-- daemon.go: `dispatch`. The switch is a table from operations to handlers; a word that is not in it is
-- an error.
pub mod Own
pub mod Errors
pub mod Calling
pub mod Refines
pub mod Accepting
pub mod Logged
use mess.Base.{Text, codes, List, [], ◌∷◌, Option, none, some, Map, find}
use mess.State.{Broker}
use mess.Requests.{Request, trim_hash}
use mess.Replies.{unknown_op}
use mess.Handlers.{Host, Outcome, Handler, fails}
use mess.Handlers.People.{
  ping, do_register, do_room_join, do_rename, do_unregister, do_rm, do_state, do_warn, do_busy,
  do_unbusy, do_session_end, do_whois,
}
use mess.Handlers.Mail.{do_send, do_broadcast, do_pub, do_sub, do_unsub}
use mess.Handlers.Reading.{do_drain, do_replay, do_export, do_thread_list, do_log, do_ps}
use mess.Handlers.Invitations.{
  do_invite, do_accept, do_decline, do_invites, do_bridge, do_unbridge, do_bridges,
}
use mess.Handlers.Upkeep.{do_cleanup, do_expire, do_stop}

-- The operations whose errors leave no trace; `send` is none of them.
abbrev pub quiet_handlers : Map Handler
quiet_handlers =
    (codes "ping", ping)
    ∷ (codes "register", do_register)
    ∷ (codes "room-join", do_room_join)
    ∷ (codes "room-leave", do_unregister)
    ∷ (codes "broadcast", do_broadcast)
    ∷ (codes "pub", do_pub)
    ∷ (codes "invite", do_invite)
    ∷ (codes "accept", do_accept)
    ∷ (codes "decline", do_decline)
    ∷ (codes "invites", do_invites)
    ∷ (codes "whois", do_whois)
    ∷ (codes "sub", do_sub)
    ∷ (codes "unsub", do_unsub)
    ∷ (codes "bridge", do_bridge)
    ∷ (codes "unbridge", do_unbridge)
    ∷ (codes "bridges", do_bridges)
    ∷ (codes "export", do_export)
    ∷ (codes "thread-list", do_thread_list)
    ∷ (codes "log", do_log)
    ∷ (codes "state", do_state)
    ∷ (codes "warn", do_warn)
    ∷ (codes "busy", do_busy)
    ∷ (codes "unbusy", do_unbusy)
    ∷ (codes "session-end", do_session_end)
    ∷ (codes "rm", do_rm)
    ∷ (codes "drain", do_drain)
    ∷ (codes "replay", do_replay)
    ∷ (codes "unregister", do_unregister)
    ∷ (codes "rename", do_rename)
    ∷ (codes "cleanup", do_cleanup)
    ∷ (codes "expire", do_expire)
    ∷ (codes "ps", do_ps)
    ∷ (codes "stop", do_stop)
    ∷ []

abbrev pub handlers : Map Handler
handlers = (codes "send", do_send) ∷ quiet_handlers

-- What answers to an operation.
unfoldable pub answered : Option Handler → Handler
answered none host req b = fails b (unknown_op req.op)
answered (some h) host req b = h host req b

-- A "#" in front of the topic is not part of it.
unfoldable pub dispatch : Handler
dispatch host req b =
    answered (find req.op handlers) host (record req { topic = trim_hash req.topic }) b
