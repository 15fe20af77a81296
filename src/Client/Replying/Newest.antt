-- ===== src/Client/Replying/Newest.antt =====
-- Which message a reply answers.
use mess.Requests.{Request}
use mathlib.Core.Option
use mess.Base.{
  codes, if◌then◌else◌, [], ◌||◌, ◌∷◌, ◌&&◌, false, same, ◌++◌, some, none, true, ◌≡◌, Bool, Option,
  List, Text,
}
use mess.Wire.{kind_direct, kind_topic, Message}
use mess.Client.Replying.{
  SessionFiles, OpenThreadInfo, LastMsgInfo, Reply, ReplyCall, posted, turned_back, update_last_msg,
  root_id, read_open_thread,
}

-- A reply with a body: the request that it is, in a thread of a kind, a topic and a peer.
abbrev pub IsReply : ReplyCall → Text → OpenThreadInfo → Request → Type 0
IsReply a body info req =
    (req.thread_id ≡ info.thread_id)
    × (req.as_name ≡ a.name)
    × (req.body ≡ body)
    × (req.room ≡ a.target.room)
    × (req.global ≡ a.target.global)
    × (if same info.kind kind_topic then req.op ≡ codes "pub" else req.op ≡ codes "send")
    × (if same info.kind kind_topic then req.topic ≡ info.topic else req.to ≡ info.to)

-- The conversation that is answered: the open thread, or else that of the newest message.
abbrev pub thread_of : Message → Option OpenThreadInfo → OpenThreadInfo
thread_of m (some kept) = kept
thread_of m none = record {
  thread_id = root_id m;
  kind = m.kind;
  topic = if same m.kind kind_topic then m.topic else [];
  to = m.from;
}

continued : LastMsgInfo → Option OpenThreadInfo → OpenThreadInfo
continued last (some kept) = kept
continued last none = record {
  thread_id = last.id;
  kind = last.kind;
  topic = last.topic;
  to = last.from;
}

-- No thread is open, or it is this one and of a kind that can be answered.
abbrev pub may_go : Text → Option OpenThreadInfo → Bool
may_go id none = true
may_go id (some kept) =
    same id kept.thread_id && (same kept.kind kind_topic || same kept.kind kind_direct)

pub Answers :
    ReplyCall → Text → OpenThreadInfo → Text → Bool → SessionFiles → SessionFiles × Reply → Type 0
Answers a body info id goes s (after, posted req) =
    (goes ≡ true)
    × IsReply a body info req
    × (req.thread_id ≡ id)
    × (Option.map (λ (t : OpenThreadInfo). t.thread_id) (read_open_thread after) ≡ some id)
Answers a body info id goes s (after, turned_back why) = (goes ≡ false) × (after ≡ s)

-- What a session has received: some messages, one that can be answered and then none that can.
abbrev pub heard : List Message → Message → List Message → SessionFiles → SessionFiles
heard pre m post s = update_last_msg (pre ++ m ∷ post) s
