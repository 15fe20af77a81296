-- ===== src/Requests.antt =====
-- wire/proto.go: a request; and daemon.go: how its fields are read before the broker is asked.
use mess.Base.{
  false, ℕ, Text, codes, Bool, ◌||◌, not, List, [], ◌∷◌, Option, none, some, is_empty, ◌==◌,
  if◌then◌else◌, contains, same,
}
use mess.Rooms.{contains_byte, agent_key, topic_key, parse_display_name, room_sep}
use mess.Mentions.{is_user_handle}
use mess.Wire.{Attachment}
use mess.State.{Direction, both, a_to_b, b_to_a}

pub record Request : Type 0 where
  pub op : Text
  pub as_name : Text
  pub to : Text
  pub topic : Text
  pub body : Text
  pub ack : Bool
  pub wait : Bool
  pub timeout : Text
  pub peek : Bool
  pub if_idle : Bool
  pub max : ℕ
  pub kinds : List Text
  pub batch : Text
  pub session : Text
  pub force : Bool
  pub loud : Bool
  pub host_wide : Bool
  pub session_pid : ℕ
  pub room : Text
  pub self_room : Option Text
  pub global : Bool
  pub all : Bool
  pub from_room : Text
  pub thread_id : Text
  pub invite : Text
  pub direction : Text
  pub remote_room : Text
  pub remote_topic : Text
  pub local_room : Text
  pub bridge_id : Text
  pub from : Text
  pub grep : Text
  pub since : Text
  pub attach_path : Text
  pub attach_hash : Text
  pub attach_size : ℕ
  pub attach_mtime : ℕ

-- The zero value, from which a request literal sets some fields.
abbrev pub blank_request : Request
blank_request = record {
  op = [];
  as_name = [];
  to = [];
  topic = [];
  body = [];
  ack = false;
  wait = false;
  timeout = [];
  peek = false;
  if_idle = false;
  max = 0;
  kinds = [];
  batch = [];
  session = [];
  force = false;
  loud = false;
  host_wide = false;
  session_pid = 0;
  room = [];
  self_room = none;
  global = false;
  all = false;
  from_room = [];
  thread_id = [];
  invite = [];
  direction = [];
  remote_room = [];
  remote_topic = [];
  local_room = [];
  bridge_id = [];
  from = [];
  grep = [];
  since = [];
  attach_path = [];
  attach_hash = [];
  attach_size = 0;
  attach_mtime = 0;
}

-- The operations in which the sender acts under its own name.
abbrev pub own_ops : List Text
own_ops =
    codes "send"
    ∷ codes "broadcast"
    ∷ codes "pub"
    ∷ codes "sub"
    ∷ codes "unsub"
    ∷ codes "state"
    ∷ codes "warn"
    ∷ codes "busy"
    ∷ codes "unbusy"
    ∷ codes "session-end"
    ∷ codes "recv"
    ∷ codes "listen"
    ∷ codes "replay"
    ∷ codes "unregister"
    ∷ codes "room-leave"
    ∷ codes "invite"
    ∷ codes "accept"
    ∷ codes "decline"
    ∷ codes "invites"
    ∷ codes "bridge"
    ∷ codes "unbridge"
    ∷ codes "export"
    ∷ codes "thread-list"
    ∷ codes "ask"
    ∷ codes "await"
    ∷ []

unfoldable pub acts_as_self : Text → Bool
acts_as_self op = contains op own_ops

-- The fields that a key is made of hold no separator.
unfoldable pub well_formed : Request → Bool
unfolding contains_byte
well_formed req = not (
    contains_byte room_sep req.room
    || contains_byte room_sep req.as_name
    || contains_byte room_sep req.to
    || contains_byte room_sep req.topic)

unfoldable pub caller_room : Request → Text
caller_room req = elim req.self_room [ some room ↦ room | none ↦ req.room ]

-- The caller in the room of the request, and in its own room.
unfoldable pub who_of : Request → Text
who_of req = agent_key req.room req.as_name

unfoldable pub self_of : Request → Text
unfolding caller_room
self_of req = agent_key (caller_room req) req.as_name

-- strings.TrimPrefix and strings.CutPrefix of "#".
unfoldable pub cut_hash : Text → Option Text
cut_hash [] = none
cut_hash (c ∷ s) = if c == b'#' then some s else none

unfoldable pub trim_hash : Text → Text
unfolding cut_hash
trim_hash s = elim (cut_hash s) [ none ↦ s | some rest ↦ rest ]

-- A target may be written as room/name; the human's handles are in no room.
unfoldable pub to_of : List Text → Request → Text
to_of logins req =
    if is_user_handle logins req.to then req.to else elim (parse_display_name req.to) [
      | none ↦ agent_key req.room req.to
      | some (r, n) ↦ agent_key r n
    ]

-- For a topic whose "#" was trimmed before.
unfoldable pub topic_of : Request → Text
topic_of req = elim (parse_display_name req.topic) [
  | none ↦ topic_key req.room req.topic
  | some (r, n) ↦ topic_key r n
]

unfoldable pub parse_bridge_direction : Text → Direction
parse_bridge_direction s =
    if same s (codes "out") then a_to_b else if same s (codes "in") then b_to_a else both

-- The topic, empty for a room, and the room.
unfoldable pub parse_invite_target : Text → Text → Text × Text
unfolding cut_hash
parse_invite_target target room = elim (cut_hash target) [
  | some rest ↦ (rest, room)
  | none ↦ ([], target)
]

unfoldable pub kind_set : List Text → Option (List Text)
kind_set [] = none
kind_set (k ∷ ks) = some (k ∷ ks)

unfoldable pub attach_from_request : Request → Option Attachment
attach_from_request req =
    if is_empty req.attach_path
    then none
    else some (record {
      path = req.attach_path;
      hash = req.attach_hash;
      size = req.attach_size;
      mtime = req.attach_mtime;
    })

-- A slash is kept for the display of a room and a name.
unfoldable pub has_slash : Text → Bool
unfolding contains_byte
has_slash name = contains_byte b'/' name
