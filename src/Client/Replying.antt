-- ===== src/Client/Replying.antt =====
-- reply.go and main.go: `mess reply`, `mess thread close` and what a session remembers for them. The
-- daemon's answer to an export, and the body once it is read, are arguments; a session's files are
-- fields, which can be read and written whenever the session has an id.
pub mod Newest
use mess.Base.{
  ◌||◌, ◌&&◌, codes, not, ◌∷◌, [], false, same, is_empty, none, some, List, if◌then◌else◌, Option,
  Bool, Text,
}
use mess.Wire.{Message, kind_direct, kind_topic}
use mess.Requests.{Request, blank_request}
use mess.Client.{RoomTarget, apply, Route, looks_like_message_id, route_from_thread_messages}

-- The newest message that was received.
pub record LastMsgInfo : Type 0 where
  pub id : Text
  pub kind : Text
  pub topic : Text
  pub from : Text

-- The thread that replies continue.
pub record OpenThreadInfo : Type 0 where
  pub thread_id : Text
  pub kind : Text
  pub topic : Text
  pub to : Text

pub record SessionFiles : Type 0 where
  pub has_id : Bool
  pub last_msg : Option LastMsgInfo
  pub open_thread : Option OpenThreadInfo

unfoldable pub read_last_msg : SessionFiles → Option LastMsgInfo
read_last_msg s = if s.has_id then s.last_msg else none

unfoldable pub write_last_msg : LastMsgInfo → SessionFiles → SessionFiles
write_last_msg info s = if s.has_id then record s { last_msg = some info } else s

unfoldable pub read_open_thread : SessionFiles → Option OpenThreadInfo
read_open_thread s = if s.has_id then s.open_thread else none

-- A session without an id cannot keep a thread.
unfoldable pub write_open_thread : OpenThreadInfo → SessionFiles → Option SessionFiles
write_open_thread info s = if s.has_id then some (record s { open_thread = some info }) else none

unfoldable pub clear_open_thread : SessionFiles → SessionFiles
clear_open_thread s = if s.has_id then record s { open_thread = none } else s

-- A reply in a thread stands for the root of the thread.
unfoldable pub root_id : Message → Text
root_id m = if is_empty m.thread_id then m.id else m.thread_id

unfoldable pub is_answerable : Message → Bool
is_answerable m = same m.kind kind_topic || same m.kind kind_direct

unfoldable pub last_msg_of : Message → LastMsgInfo
unfolding root_id
last_msg_of m = record {
  id = root_id m;
  kind = m.kind;
  topic = if same m.kind kind_topic then m.topic else [];
  from = m.from;
}

-- From the newest message back to the first that can be answered.
unfoldable pub newest : List Message → Option Message
unfolding is_answerable
newest [] = none
newest (m ∷ ms) = elim (newest ms) [
  | some later ↦ some later
  | none ↦ if is_answerable m then some m else none
]

unfoldable pub update_last_msg : List Message → SessionFiles → SessionFiles
unfolding newest last_msg_of write_last_msg
update_last_msg ms s = elim (newest ms) [ none ↦ s | some m ↦ write_last_msg (last_msg_of m) s ]

-- Two threads are in question: the open one and that of a newer message.
unfoldable pub ambiguous_reply_target : OpenThreadInfo → Option LastMsgInfo → Bool
ambiguous_reply_target kept none = false
ambiguous_reply_target kept (some last) = not (same last.id kept.thread_id)

pub data ReplyError : Type 0 where
  looks_like_id empty_body call_failed no_such_thread no_session_id : ReplyError
  ambiguous_target nothing_to_reply unsupported_kind : ReplyError

-- What a command comes to: a request to the daemon, or an error.
pub data Reply : Type 0 where
  posted : Request → Reply
  turned_back : ReplyError → Reply

-- A command line of `mess reply`; `view` is the thread that --thread names, as its agent sees it.
pub record ReplyCall : Type 0 where
  pub target : RoomTarget
  pub name : Text
  pub thread : Text
  pub args : List Text
  pub body : Option Text
  pub view : Option (List Message)

unfoldable pub send_reply : ReplyCall → OpenThreadInfo → Text → Reply
unfolding apply
send_reply a info body =
    if same info.kind kind_topic
    then posted (
        apply a.target (record blank_request {
          op = codes "pub";
          as_name = a.name;
          topic = info.topic;
          body = body;
          thread_id = info.thread_id;
        }))
    else if same info.kind kind_direct
    then posted (
        apply a.target (record blank_request {
          op = codes "send";
          as_name = a.name;
          to = info.to;
          body = body;
          thread_id = info.thread_id;
        }))
    else turned_back unsupported_kind

-- The thread becomes the open one before the reply is sent.
open_and_send : ReplyCall → OpenThreadInfo → Text → SessionFiles → SessionFiles × Reply
unfolding write_open_thread send_reply
open_and_send a info body s = elim (write_open_thread info s) [
  | none ↦ (s, turned_back no_session_id)
  | some after ↦ (after, send_reply a info body)
]

reply_within : ReplyCall → Text → SessionFiles → SessionFiles × Reply
unfolding open_and_send
reply_within a body s = elim a.view [
  | none ↦ (s, turned_back call_failed)
  | some ms ↦ elim (route_from_thread_messages a.name a.thread ms) [
    | none ↦ (s, turned_back no_such_thread)
    | some route ↦
        open_and_send a
          (record { thread_id = a.thread; kind = route.kind; topic = route.topic; to = route.to })
          body s
  ]
]

unfoldable pub opened_by : LastMsgInfo → OpenThreadInfo
opened_by last = record {
  thread_id = last.id;
  kind = last.kind;
  topic = last.topic;
  to = last.from;
}

reply_on : ReplyCall → Text → SessionFiles → SessionFiles × Reply
unfolding open_and_send opened_by ambiguous_reply_target read_last_msg read_open_thread
reply_on a body s = elim (read_open_thread s) [
  | some kept ↦
      if ambiguous_reply_target kept (read_last_msg s)
      then (s, turned_back ambiguous_target)
      else (s, send_reply a kept body)
  | none ↦ elim (read_last_msg s) [
    | none ↦ (s, turned_back nothing_to_reply)
    | some last ↦ open_and_send a (opened_by last) body s
  ]
]

-- A body that is nothing but a message id is a --thread that was forgotten.
abbrev pub lone_id : List Text → Bool
lone_id [] = false
lone_id (arg ∷ []) = looks_like_message_id arg
lone_id (arg ∷ more ∷ rest) = false

unfoldable pub reply : ReplyCall → SessionFiles → SessionFiles × Reply
unfolding reply_on reply_within
reply a s =
    let on = reply_on a in
    let within = reply_within a in
    if is_empty a.thread && lone_id a.args then (s, turned_back looks_like_id) else elim a.body [
      | none ↦ (s, turned_back empty_body)
      | some body ↦ if is_empty a.thread then on body s else within body s
    ]
