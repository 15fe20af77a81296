-- ===== src/Examples/Desk.antt =====
-- Requests to the daemon in the town of the scene.
use mess.Dispatch.Own.{May}
use mess.Runs.Reaches.{Reaches}
use mess.Journal.Writer.{no_fault, JournalWriter}
use mess.Threads.{list_threads}
use mess.Handlers.Invitations.{do_accept}
use mess.Threads.Seen.{list_threads_lem, Shown}
use mess.Dispatch.Logged.{Found, logged_lem, line_of}
use mess.Journal.{Filter}
use mess.Topics.{publish}
use mess.Dispatch.Accepting.{do_accept_lem, Accepted}
use mess.State.{Agent, Broker}
use mess.Ids.{msg_id}
use mess.Presence.{add_listener, watch_evict}
use mess.Core.{next_id, update_agent, agent_at, touch, ensure, deliver_to}
use mess.Inbox.{
  settle, drain_matching, has_pending_by, match_kind, split, wakes, drain_kinds, has_pending,
  wait_chan,
}
use mess.Owners.{claim_identity, find_other_room, is_registered}
use mess.Direct.{broadcast, direct_message, track_if_threaded, open_ack, send, plain}
use mess.Runs.{Call, step, run, sends}
use mess.Serve.Gate.{handle_gate, Gated}
use mess.Rooms.{contains_byte, split_agent_key, parse_display_name, agent_key}
use mess.Mentions.{user_handles, is_user_handle}
use mess.Dispatch.Errors.{dispatch_error}
use mess.Wire.{Message}
use mess.Serve.Valid.{handle_calls}
use mess.Waiting.Ends.{park_and_drain_lem, Answered}
use mess.Replies.{Response}
use mess.Serve.{recv, serve, gated, recv_wait, handle}
use mess.Handlers.Mail.{do_broadcast, do_pub, timer_for, do_send}
use mess.Waiting.{take_mail, park_and_drain, ending, Waking, Pause}
use mess.Dispatch.{answered, dispatch}
use mess.Base.{
  put, delete, select, sort_by, find, text_discrete, contains, pos, map, any, codes, Bool, true,
  false, [], ◌∷◌, none, some, ◌≡◌, refl,
}
use mess.Requests.{
  blank_request, attach_from_request, topic_of, kind_set, who_of, to_of, self_of, acts_as_self,
  well_formed, Request,
}
use mess.Handlers.{unknown_recipient, Host, AckEnd}
use mess.Examples.Scene.{member, letter, alice, bob, carol, news, sports, day, town}

abbrev host : Host
host = record {
  env = day;
  later = day;
  parent_pid = λ pid. 1;
  compile = λ pattern. none;
  lines = [];
  writes = some (λ m. true);
  meanwhile = [];
  ack_end = AckEnd.receipt;
}

-- A letter to a name that nobody has registered.
abbrev stray : Request
stray = record blank_request {
  op = codes "send";
  as_name = bob;
  to = codes "dave";
  body = codes "hi";
}

dispatch_error_example :
    ((dispatch host stray town).broker ≡ town) × ((dispatch host stray town).journaled ≡ [])
unfolding dispatch do_send unknown_recipient any text_discrete answered find is_user_handle contains
    is_registered to_of parse_display_name agent_key find_other_room sort_by select split_agent_key
dispatch_error_example = dispatch_error host stray town refl refl

abbrev parked_reader : Request
parked_reader = record blank_request { op = codes "recv"; as_name = alice; wait = true }

abbrev letter_comes : Pause
letter_comes = record {
  calls = (day, sends bob alice (codes "hello") plain) ∷ [];
  env = day;
  waking = Waking.delivery;
}

abbrev time_up : Pause
time_up = record { calls = []; env = day; waking = Waking.timeout }

park_and_drain_lem_example : Answered (
    park_and_drain
      (recv_wait parked_reader)
      (pos 0)
      day
      alice
      (codes "5m")
      (letter_comes ∷ time_up ∷ [])
      town)
unfolding any ending
park_and_drain_lem_example =
    park_and_drain_lem (recv_wait parked_reader) (pos 0) day alice (codes "5m")
      (letter_comes ∷ time_up ∷ []) town refl

-- All that others call while the reader waits is that bob sends a letter.
abbrev IsLetter : Call → Type 0
IsLetter call = call ≡ sends bob alice (codes "hello") plain

handle_calls_example :
    Reaches
      (May IsLetter host parked_reader)
      town
      (handle host (letter_comes ∷ []) parked_reader town).broker
handle_calls_example =
    handle_calls IsLetter host (letter_comes ∷ []) parked_reader tt ((refl, tt), tt) town

-- A session that acts under the name of alice, which another one owns.
abbrev impostor : Request
impostor = record blank_request {
  op = codes "pub";
  as_name = alice;
  topic = news;
  session = codes "s9";
}

handle_gate_example : Gated host [] impostor town
unfolding well_formed acts_as_self self_of is_user_handle user_handles contains text_discrete
    agent_key
handle_gate_example = handle_gate host [] impostor town refl refl refl refl refl

-- The parked reader wakes to the letter, which carries the next id.
woken_ids :
    map
      (λ (r : Response). map (λ (m : Message). m.id) r.messages)
      (handle host (letter_comes ∷ []) parked_reader town).replies
    ≡ (codes "m3" ∷ []) ∷ []
unfolding handle acts_as_self well_formed contains_byte contains text_discrete gated claim_identity
    serve recv park_and_drain take_mail timer_for wait_chan has_pending self_of who_of agent_key
    kind_set find any run step send deliver_to drain_kinds wakes watch_evict add_listener split
    ensure touch match_kind delete put has_pending_by agent_at drain_matching settle update_agent
    next_id msg_id open_ack track_if_threaded direct_message
woken_ids = refl

-- bob is invited to a topic, and to a room while he is in none.
abbrev open_town : Broker
open_town = record town {
  invites =
      (codes "m9", record { inviter = alice; invitee = bob; room = []; topic = sports; at = 3 })
      ∷ [];
}

abbrev bob_accepts : Request
bob_accepts = record blank_request { op = codes "accept"; as_name = bob; thread_id = codes "m9" }

do_accept_lem_example : Accepted bob_accepts open_town (do_accept host bob_accepts open_town)
do_accept_lem_example = do_accept_lem host bob_accepts open_town

abbrev said : Request
said = record blank_request { op = codes "pub"; as_name = alice; topic = news; body = codes "hi" }

abbrev whole_room : Filter
whole_room = record {
  room = [];
  all = false;
  from = [];
  to = [];
  topic = [];
  grep = [];
  since = pos 0;
  max = 0;
}

abbrev always : Message → Bool
always m = true

abbrev empty_log : JournalWriter
empty_log = record { files = λ i. none; size = 0; is_open = true }

logged_lem_example :
    Found 2000 none whole_room refl host always refl
      (λ l. 100)
      (λ i. true)
      (λ i. refl)
      no_fault
      empty_log
      refl
      (do_pub host said town).journaled
      (line_of []
        (publish day
          (self_of said)
          (topic_of said)
          (codes "hi")
          []
          (attach_from_request said)
          town).1)
    × Found 2000 none whole_room refl host always refl
        (λ l. 100)
        (λ i. true)
        (λ i. refl)
        no_fault
        empty_log
        refl
        (do_broadcast host said town).journaled
        (line_of [] (broadcast day (self_of said) [] (codes "hi") false false town).1)
logged_lem_example =
    logged_lem 2000 none whole_room refl host always refl (λ l. 100) (λ i. true) (λ i. refl)
      no_fault empty_log refl said town refl refl

-- bob has seen a reply of carol in a thread of his.
abbrev reply : Message
reply = record letter { id = codes "m7"; from = carol; thread_id = codes "m5" }

abbrev bob_with_reply : Agent
bob_with_reply = member bob (letter ∷ reply ∷ []) [] []

abbrev chatty_town : Broker
chatty_town = record town { agents = (bob, bob_with_reply) ∷ [] }

list_threads_lem_example : Shown (letter ∷ reply ∷ []) (list_threads bob chatty_town)
unfolding text_discrete
list_threads_lem_example = list_threads_lem bob chatty_town bob_with_reply (unfold find in refl)
