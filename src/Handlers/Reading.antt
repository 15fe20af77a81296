-- ===== src/Handlers/Reading.antt =====
-- daemon.go: the cases of `dispatch` that read mail, histories, threads and the journal.
use mess.Base.{List, Option, none, some, is_empty, length, not, if◌then◌else◌, ℤ}
use mess.Wire.{Message}
use mess.Inbox.{drain_quiet, replay, export_topic, export_thread, export_direct}
use mess.Threads.{list_threads}
use mess.Listing.{ps}
use mess.Durations.{parse_since}
use mess.Journal.{Filter, search_journal}
use mess.Requests.{Request, who_of, to_of, topic_of}
use mess.Replies.{Response, done, failed, export_needs_target, invalid_duration, bad_pattern}
use mess.Handlers.{Handler, answer}

-- `Response{OK: true, Messages: msgs, Count: len(msgs)}`
abbrev pub listed : List Message → Response
listed ms = record done { messages = ms; count = length ms }

unfoldable pub do_drain : Handler
do_drain host req b = let (b', ms) = drain_quiet (who_of req) req.max b in answer b' (listed ms)

unfoldable pub do_replay : Handler
do_replay host req b = answer b (listed (replay (who_of req) req.max b))

unfoldable pub do_export : Handler
do_export host req b = answer b (
    if not (is_empty req.topic)
    then listed (export_topic (topic_of req) req.max b)
    else if not (is_empty req.thread_id)
    then listed (export_thread (who_of req) req.thread_id req.max b)
    else if not (is_empty req.to)
    then listed (export_direct (who_of req) (to_of host.env.logins req) req.max b)
    else failed export_needs_target)

unfoldable pub do_thread_list : Handler
do_thread_list host req b =
    let threads = list_threads (who_of req) b in
    answer b (record done { threads = threads; count = length threads })

abbrev pub filter_of : Request → ℤ → Filter
filter_of req since = record {
  room = req.room;
  all = req.all;
  from = req.from;
  to = req.to;
  topic = req.topic;
  grep = req.grep;
  since = since;
  max = req.max;
}

matching : Option (List Message) → Response
matching none = failed bad_pattern
matching (some ms) = listed ms

unfoldable pub do_log : Handler
unfolding matching
do_log host req b = answer b (elim (parse_since req.since) [
  | none ↦ failed (invalid_duration req.since)
  | some since ↦
      matching (search_journal host.compile host.env.now (filter_of req since) host.lines)
])

unfoldable pub do_ps : Handler
do_ps host req b =
    let (agents, topics) = ps host.env req.room req.all b in
    answer b (record done { agents = agents; topics = topics })
