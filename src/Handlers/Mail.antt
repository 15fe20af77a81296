-- ===== src/Handlers/Mail.antt =====
-- daemon.go: the cases of `dispatch` that send, and the method `send` with its wait for a receipt.
use mess.Base.{if◌then◌else◌, Text, Bool, true, false, List, [], ◌∷◌, Option, none, some, ℤ, ℕ}
use mess.Wire.{Message}
use mess.State.{Broker}
use mess.Direct.{Extras, send, cancel_ack, broadcast}
use mess.Topics.{publish, subscribe, unsubscribe}
use mess.Asks.{ambiguous_mention_tokens}
use mess.Audience.{mentions_not_subscribed, mentions_not_in_room}
use mess.Durations.{parse_duration}
use mess.Requests.{
  Request, who_of, self_of, to_of, topic_of, caller_room, attach_from_request, has_slash,
}
use mess.Replies.{done, no_recipient, invalid_timeout, shutting_down, slash_in_topic}
use mess.Runs.{run}
use mess.Handlers.{
  AckEnd, receipt, no_receipt, stopping, Host, Outcome, Handler, answer, fails, journal_append,
  unknown_recipient,
}

abbrev pub extras_of : Request → Extras
extras_of req = record {
  thread_id = req.thread_id;
  ack = req.ack;
  attach = attach_from_request req;
  is_ask = false;
  invite = [];
}

-- What follows on a message that was sent: its journal line, and the word on an ambiguous mention.
unfoldable pub sent_out : Host → Request → Bool → Message → Broker → Outcome
sent_out host req acked m b =
    let (b', asker, tokens) = ambiguous_mention_tokens m b in
    record {
      broker = b';
      replies =
          record done {
            count = 1;
            acked = acked;
            ambiguous_asker = asker;
            ambiguous_tokens = tokens;
          }
          ∷ [];
      journaled = journal_append host req.room m;
      stops = false;
    }

unfoldable pub after_wait : AckEnd → Host → Request → Message → Broker → Outcome
unfolding sent_out
after_wait receipt host req m b = sent_out host req true m b
after_wait no_receipt host req m b = sent_out host req false m b
after_wait stopping host req m b = fails b shutting_down

-- `timerFor`: without a text the wait has no end of its own.
unfoldable pub timer_for : Text → Option (Option ℤ)
unfolding parse_duration
timer_for [] = some none
timer_for (c ∷ s) = elim (parse_duration (c ∷ s)) [ none ↦ none | some d ↦ some (some d) ]

unfoldable pub await_receipt : Host → Request → Message → Broker → Outcome
unfolding timer_for after_wait
await_receipt host req m b = elim (timer_for req.timeout) [
  | none ↦ fails (cancel_ack m.id b) (invalid_timeout req.timeout)
  | some t ↦ after_wait host.ack_end host req m (run host.meanwhile b)
]

unfoldable pub sent_with :
    Bool → Host → Request → Broker → Option (Broker × Message × Option ℕ) → Outcome
unfolding sent_out await_receipt
sent_with ack host req b none = fails b no_recipient
sent_with false host req b (some (b', m, ch)) = sent_out host req false m b'
sent_with true host req b (some (b', m, ch)) = await_receipt host req m b'

unfoldable pub do_send : Handler
unfolding sent_with
do_send host req b =
    let to = to_of host.env.logins req in
    elim (unknown_recipient host req to b) [
      | some e ↦ fails b e
      | none ↦
          sent_with req.ack host req b (send host.env (self_of req) to req.body (extras_of req) b)
    ]

unfoldable pub do_broadcast : Handler
do_broadcast host req b =
    let (b', m, n) = broadcast host.env (self_of req) req.room req.body req.loud req.host_wide b in
    record {
      broker = b';
      replies =
          record done {
            count = n;
            unreached = mentions_not_in_room host.env (caller_room req) req.body req.host_wide b';
          }
          ∷ [];
      journaled = journal_append host req.room m;
      stops = false;
    }

-- The subscribers are named only beside a mention that reaches nobody.
members_for : List Text × List Text → List Text
members_for ([], members) = []
members_for (name ∷ names, members) = members

unfoldable pub do_pub : Handler
unfolding members_for
do_pub host req b =
    let topic = topic_of req in
    let (b', m, heard, woke) =
      publish host.env (self_of req) topic req.body req.thread_id (attach_from_request req) b in
    let silent = mentions_not_subscribed host.env topic req.body b' in
    record {
      broker = b';
      replies =
          record done {
            count = heard;
            woke = woke;
            unreached = silent.0;
            members = members_for silent;
          }
          ∷ [];
      journaled = journal_append host req.room m;
      stops = false;
    }

unfoldable pub do_sub : Handler
do_sub host req b =
    if has_slash req.topic
    then fails b (slash_in_topic req.topic)
    else answer (subscribe host.env (who_of req) (topic_of req) b) done

unfoldable pub do_unsub : Handler
do_unsub host req b = answer (unsubscribe host.env (who_of req) (topic_of req) b) done
