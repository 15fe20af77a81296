-- ===== src/Replies.antt =====
-- wire/proto.go: what the daemon answers. An error is a constructor in place of its text, with what
-- the text is made of.
use mess.Base.{ℕ, Text, Bool, true, false, List, [], Option, none, some}
use mess.Wire.{Message, InviteSummary}
use mess.State.{BridgeSnap}
use mess.Owners.{Refusal}
use mess.Invites.{InviteError, LookupError}
use mess.Bridges.{BridgeError}
use mess.Listing.{AgentInfo, TopicInfo}
use mess.Threads.{ThreadInfo}

pub data Failure : Type 0 where
  bad_control_byte : Failure
  refused : Refusal → Failure
  slash_in_name : Text → Failure
  slash_in_topic : Text → Failure
  -- The name, the room it was looked for in, and the rooms it is registered in.
  registered_elsewhere : Text → Text → List Text → Failure
  no_such_agent : Text → Failure
  -- The same, with the rooms that the hint names.
  ask_needs_registered : Text → Text → List Text → Failure
  offline : Text → Failure
  no_recipient : Failure
  invalid_timeout : Text → Failure
  invalid_duration : Text → Failure
  shutting_down client_gone : Failure
  cannot_invite : InviteError → Failure
  no_invitation : LookupError → Failure
  -- The rooms that an accept would move from and to.
  accept_would_move : Text → Text → Failure
  no_session_of : ℕ → Failure
  nobody_claims : ℕ → ℕ → Failure
  not_in_local_room : Text → Failure
  cannot_bridge : BridgeError → Failure
  export_needs_target await_needs_token no_listen_identity bad_pattern : Failure
  unknown_op : Text → Failure

pub data Reason : Type 0 where
  no_reason raced timed_out evicted : Reason

pub record Response : Type 0 where
  pub ok : Bool
  pub error : Option Failure
  pub acked : Bool
  pub messages : List Message
  pub agents : List AgentInfo
  pub topics : List TopicInfo
  pub bridges : List BridgeSnap
  pub threads : List ThreadInfo
  pub count : ℕ
  pub removed : List Text
  pub busy : Bool
  pub woke : ℕ
  pub unreached : List Text
  pub members : List Text
  pub session_pid : ℕ
  pub invite : Text
  pub notified : Text
  pub received : List InviteSummary
  pub sent : List InviteSummary
  pub ambiguous_asker : Text
  pub ambiguous_tokens : List Text
  pub id : Text
  pub expired : ℕ
  pub reason : Reason

abbrev pub no_reply : Response
no_reply = record {
  ok = false;
  error = none;
  acked = false;
  messages = [];
  agents = [];
  topics = [];
  bridges = [];
  threads = [];
  count = 0;
  removed = [];
  busy = false;
  woke = 0;
  unreached = [];
  members = [];
  session_pid = 0;
  invite = [];
  notified = [];
  received = [];
  sent = [];
  ambiguous_asker = [];
  ambiguous_tokens = [];
  id = [];
  expired = 0;
  reason = no_reason;
}

-- `Response{OK: true}` and `Response{Error: …}`.
abbrev pub done : Response
done = record no_reply { ok = true }

abbrev pub failed : Failure → Response
failed e = record no_reply { error = some e }
