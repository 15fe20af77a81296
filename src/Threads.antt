-- ===== src/Threads.antt =====
-- broker.go: the threads that an agent has seen. The source gathers them in the order of a map and
-- sorts them by their last activity; here equal times keep the order in which threads were met.
pub mod Seen
use mess.Base.{
  ℕ, ◌+◌, Text, Bool, true, false, ◌&&◌, not, List, [], ◌∷◌, ◌++◌, map, Option, none, some, Map,
  find, or_zero, is_empty, same, ltb, if◌then◌else◌, contains, add, length, sort_by,
}
use mess.Rooms.{bare}
use mess.Wire.{Message, kind_direct}
use mess.State.{Broker}

pub record ThreadInfo : Type 0 where
  pub id : Text
  pub kind : Text
  pub topic : Text
  pub peer : Text
  pub root_body : Text
  pub replies : ℕ
  pub participants : ℕ
  pub last_activity : ℕ

-- The threads that some reply among the messages belongs to.
unfoldable pub thread_ids : List Message → List Text
thread_ids [] = []
thread_ids (m ∷ ms) =
    let ids = thread_ids ms in if is_empty m.thread_id then ids else add m.thread_id ids

-- A message counts for the thread it replies in, or, as its root, for the thread it opened.
unfoldable pub belongs : Text → Message → Bool
belongs id m = if is_empty m.thread_id then same m.id id else same m.thread_id id

-- `if info.Kind == KindDirect && info.Peer == ""`
unfoldable pub with_peer : Text → Message → ThreadInfo → ThreadInfo
with_peer me m info =
    if same info.kind kind_direct && is_empty info.peer
    then record info { peer = if same m.from me then m.to else m.from }
    else info

unfoldable pub noted : Text → Message → ThreadInfo → ThreadInfo
unfolding with_peer
noted me m info =
    let root = is_empty m.thread_id in
    let fresh = is_empty info.kind in
    let named = record info {
      kind = if fresh then m.kind else info.kind;
      topic = if fresh then m.topic else info.topic;
      root_body = if root then m.body else info.root_body;
      replies = if root then info.replies else info.replies + 1;
    } in
    let i = with_peer me m named in
    record i { last_activity = if ltb i.last_activity m.time then m.time else i.last_activity }

-- What the messages that belong to a thread leave of its zero record, the first one first.
unfoldable pub gather : Text → Text → List Message → ThreadInfo → ThreadInfo
unfolding belongs noted
gather me id [] info = info
gather me id (m ∷ ms) info = gather me id ms (if belongs id m then noted me m info else info)

unfoldable pub new_thread : Text → ThreadInfo
new_thread id = record {
  id = id;
  kind = [];
  topic = [];
  peer = [];
  root_body = [];
  replies = 0;
  participants = 0;
  last_activity = 0;
}

unfoldable pub thread_info : Text → List Message → Map (List Text) → Text → ThreadInfo
unfolding gather new_thread
thread_info me seen participants id = record (gather me id seen (new_thread id)) {
  participants = length (or_zero [] (find id participants));
}

unfoldable pub list_threads : Text → Broker → List ThreadInfo
unfolding thread_ids thread_info
list_threads name b = elim (find name b.agents) [
  | none ↦ []
  | some a ↦
      let seen = a.history ++ a.inbox in
      sort_by (λ (x y : ThreadInfo). ltb y.last_activity x.last_activity)
        (map (thread_info (bare name) seen b.thread_participants) (thread_ids seen))
]
