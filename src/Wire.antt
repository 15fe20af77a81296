-- ===== src/Wire.antt =====
-- wire/proto.go: the message. Times are nanoseconds since Go's zero time, so 0 is the zero time.
use mess.Base.{ℕ, Text, codes, Bool, false, [], Option, none, some}

abbrev pub kind_direct : Text
kind_direct = codes "direct"

abbrev pub kind_broadcast : Text
kind_broadcast = codes "broadcast"

abbrev pub kind_topic : Text
kind_topic = codes "topic"

pub record Message : Type 0 where
  pub id : Text
  pub from : Text
  pub to : Text
  pub topic : Text
  pub kind : Text
  pub body : Text
  pub time : ℕ
  pub ack_requested : Bool
  pub quiet : Bool
  pub loud : Bool
  pub thread_id : Text
  pub ask : Bool
  pub invite : Text
  pub bridge_id : Text
  pub origin_room : Text
  pub origin_topic : Text
  pub attach_path : Text
  pub attach_hash : Text
  pub attach_size : ℕ
  pub attach_mtime : ℕ

pub record Attachment : Type 0 where
  pub path : Text
  pub hash : Text
  pub size : ℕ
  pub mtime : ℕ

-- The zero value, from which a message literal sets some fields.
abbrev pub blank : Message
blank = record {
  id = [];
  from = [];
  to = [];
  topic = [];
  kind = [];
  body = [];
  time = 0;
  ack_requested = false;
  quiet = false;
  loud = false;
  thread_id = [];
  ask = false;
  invite = [];
  bridge_id = [];
  origin_room = [];
  origin_topic = [];
  attach_path = [];
  attach_hash = [];
  attach_size = 0;
  attach_mtime = 0;
}

unfoldable pub with_attachment : Option Attachment → Message → Message
with_attachment none m = m
with_attachment (some f) m = record m {
  attach_path = f.path;
  attach_hash = f.hash;
  attach_size = f.size;
  attach_mtime = f.mtime;
}

pub record InviteSummary : Type 0 where
  pub token : Text
  pub what : Text
  pub from : Text
  pub to : Text
  pub time : ℕ
