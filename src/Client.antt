-- ===== src/Client.antt =====
-- client.go and main.go: what the command line client makes of its arguments before it calls the
-- daemon. The session of the host and the room that the caller is in are arguments.
pub mod Targets
pub mod Replying
pub mod Kinds
use mess.Base.{
  ℕ, Text, codes, Bool, true, false, ◌&&◌, ◌||◌, not, List, [], ◌∷◌, ◌++◌, Option, none, some,
  is_some, is_empty, ◌==◌, same, ltb, contains, add, remove, length, select, if◌then◌else◌, ℤ, pos,
  leb,
}
use mess.Rooms.{parse_display_name}
use mess.Ids.{atoi}
use mess.Mentions.{is_space}
use mess.Wire.{Message, kind_direct, kind_broadcast, kind_topic}
use mess.Requests.{Request, trim_hash}

-- The first of a flag, the stored room and the variable MESS_ROOM that is not empty.
unfoldable pub resolve_room : Text → Text → Text → Text
resolve_room flag stored env =
    if not (is_empty flag) then flag else if not (is_empty stored) then stored else env

unfoldable pub with_session : Text → ℕ → Request → Request
with_session session_id host_pid req = record req {
  session = if is_empty req.session then session_id else req.session;
  session_pid = if req.session_pid == 0 then host_pid else req.session_pid;
}

-- `ambient` is the room that the caller is in.
unfoldable pub with_room : Text → Request → Request
with_room ambient req = record req {
  self_room = if is_some req.self_room then req.self_room else some ambient;
  room = if is_empty req.room && not req.global then ambient else req.room;
}

pub record RoomTarget : Type 0 where
  pub room : Text
  pub global : Bool

-- The pair of --room and --global; both at once are refused.
unfoldable pub room_flags : Text → Bool → Option RoomTarget
room_flags room global =
    if not (is_empty room) && global then none else some (record { room = room; global = global })

-- Whether a target that names its own room agrees with the flags.
unfoldable pub check_target : RoomTarget → Text → Bool
check_target rt target = elim (parse_display_name target) [
  | none ↦ true
  | some (room, name) ↦
      if rt.global then false else if is_empty rt.room then true else same rt.room room
]

unfoldable pub apply : RoomTarget → Request → Request
apply rt req = record req { room = rt.room; global = rt.global }

-- The cut at the last slash.
unfoldable pub cut_last : Text → Option (Text × Text)
cut_last [] = none
cut_last (c ∷ s) = elim (cut_last s) [
  | some (room, topic) ↦ some (c ∷ room, topic)
  | none ↦ if c == b'/' then some ([], s) else none
]

unfoldable pub split_room_topic : Text → Option (Text × Text)
unfolding cut_last
split_room_topic s = elim (cut_last s) [
  | none ↦ none
  | some (room, topic) ↦ some (room, trim_hash topic)
]

-- Without an argument the count is 0.
unfoldable pub parse_replay_count : List Text → Option ℤ
parse_replay_count [] = some (pos 0)
parse_replay_count (arg ∷ rest) = atoi arg

all_digits : Text → Bool
all_digits [] = true
all_digits (c ∷ s) = leb b'0' c && leb c b'9' && all_digits s

unfoldable pub looks_like_message_id : Text → Bool
unfolding all_digits
looks_like_message_id [] = false
looks_like_message_id (c ∷ []) = false
looks_like_message_id (c ∷ d ∷ s) = c == b'm' && all_digits (d ∷ s)

-- Where a reply goes: the kind, the topic and the recipient.
pub record Route : Type 0 where
  pub kind : Text
  pub topic : Text
  pub to : Text

-- The route that a message gives, with the peer to whom a direct one goes.
route_by : Text → Message → Route
route_by peer m =
    if same m.kind kind_direct
    then record { kind = m.kind; topic = []; to = peer }
    else record { kind = m.kind; topic = m.topic; to = [] }

root_of : Text → List Message → Option Message
root_of thread [] = none
root_of thread (m ∷ ms) = let rest = root_of thread ms in if same m.id thread then some m else rest

-- The root of the thread gives the route, if it is in view, or else the first message that is.
unfoldable pub route_from_thread_messages : Text → Text → List Message → Option Route
unfolding route_by root_of
route_from_thread_messages name thread [] = none
route_from_thread_messages name thread (m ∷ ms) = elim (root_of thread (m ∷ ms)) [
  | some root ↦ some (route_by root.from root)
  | none ↦ some (route_by (if same m.from name then m.to else m.from) m)
]
