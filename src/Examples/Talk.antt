-- ===== src/Examples/Talk.antt =====
-- Topics, bridges, questions and invitations.
use mathlib.Core.List.Perm
use mess.Base.{
  Text, codes, ◌≡◌, refl, true, false, some, none, [], ◌∷◌, text_discrete, find, arith, length,
  select, same, contains, pos, or_zero, Distinct, not, sym, ne→same, Bool-cases, inl, inr, add,
}
use mess.Wire.{Message, blank, kind_topic}
use mess.State.{Broker, InviteInfo, both}
use mess.Topics.{publish_local, is_subscribed}
use mess.Topics.Publish.{publish_local_lem, subscribers}
use mess.Topics.Deliveries.{publish_lem, after}
use mess.Mentions.{mentions_in}
use mess.Asks.{mention_could_answer, answers_ask, ambiguous_mention_tokens, remember_ask}
use mess.Asks.Answers.{verdict_kept}
use mess.Asks.Table.{remember_ask-AsksIsValid, AsksIsValid}
use mess.Ids.{msg_seq}
use mess.Rooms.{topic_key, split_agent_key}
use mess.Direct.{send}
use mess.Invites.{
  Invited, refused, may_invite, deliver_invite, record_sent, invite, sent, lookup_invite,
  invitation,
}
use mess.Invites.Consent.{invite-lookup_invite}
use mess.Bridges.{unbridge, Wish}
use mess.Bridges.Index.{unbridge_lem, Elsewhere}
use mess.Examples.Scene.{alice, bob, carol, news, sports, day, town, letter, road}

town-sets : (tk : Text) → Distinct (or_zero [] (find tk town.topics))
unfolding find contains
town-sets tk = elim (Bool-cases (same news tk)) [
  | inl e ↦ rw e (unfold text_discrete in (refl, (refl, tt)))
  | inr e ↦ elim (Bool-cases (same sports tk)) [
    | inl f ↦ rw (e, f) (refl, tt)
    | inr f ↦ rw (e, f) tt
  ]
]

publish_lem_example :
    (after day alice news (codes "hi") [] none town).2
    ≡ length (select (λ k. not (same k alice)) (subscribers news town))
publish_lem_example = (publish_lem day alice news (codes "hi") [] none town town-sets).4

abbrev notice : Message
notice = record blank { id = codes "m3"; from = alice; kind = kind_topic; body = codes "@bob hi" }

publish_local_lem_example :
    (publish_local news notice alice false town).1
    ≡ length (select (λ k. not (same k alice)) (subscribers news town))
unfolding find text_discrete contains
publish_local_lem_example = (publish_local_lem news notice alice false town (refl, (refl, tt))).1

-- Both of bob's questions to alice are open.
abbrev quiz : Broker
quiz = record town {
  asks =
      (codes "m1", record { asker = bob; askee = alice; seq = pos 1; ambiguous_up_to = pos 0 })
      ∷ (codes "m2", record { asker = bob; askee = alice; seq = pos 2; ambiguous_up_to = pos 0 })
      ∷ [];
}

-- One question is bob's and the other is carol's.
abbrev exam : Broker
exam = record town {
  asks =
      (codes "m1", record { asker = bob; askee = alice; seq = pos 1; ambiguous_up_to = pos 0 })
      ∷ (codes "m2", record { asker = carol; askee = alice; seq = pos 2; ambiguous_up_to = pos 0 })
      ∷ [];
}

verdict_kept_example :
    answers_ask notice (codes "m1") (ambiguous_mention_tokens notice quiz).0 ≡ false
unfolding text_discrete mention_could_answer contains select mentions_in add msg_seq split_agent_key
verdict_kept_example =
    verdict_kept notice quiz (ambiguous_mention_tokens notice quiz).0 (codes "m1") (ground arith)
      refl

quiz-AsksIsValid : AsksIsValid quiz
quiz-AsksIsValid = ((refl, refl, (refl, refl, tt)), ground arith)

remember_ask-AsksIsValid_example :
    find (codes "m3") (remember_ask (codes "m3") carol alice quiz).asks
    ≡ some (record { asker = carol; askee = alice; seq = pos 3; ambiguous_up_to = pos 0 })
unfolding msg_seq
remember_ask-AsksIsValid_example =
    (remember_ask-AsksIsValid (codes "m3") carol alice (pos 3) quiz refl quiz-AsksIsValid).1

abbrev code_free : Text
code_free = []

abbrev state_of : Invited → Broker
state_of (sent b m) = b
state_of (refused e) = town

abbrev message_of : Invited → Message
message_of (sent b m) = m
message_of (refused e) = letter

-- bob, who follows the news, invites carol to them.
abbrev call : Invited
call = invite day bob carol news [] [] town

call-sent : call ≡ sent (state_of call) (message_of call)
unfolding invite may_invite deliver_invite record_sent send is_subscribed find contains
    text_discrete split_agent_key topic_key
call-sent = refl

invite-lookup_invite_example :
    lookup_invite carol (message_of call).id (state_of call)
    ≡ invitation (record { inviter = bob; invitee = carol; room = []; topic = news; at = 1000 })
invite-lookup_invite_example =
    (invite-lookup_invite day bob carol news [] [] town (state_of call) (message_of call)
      call-sent).0

abbrev opened : InviteInfo
opened = record { inviter = alice; invitee = bob; room = codes "lab"; topic = []; at = 900 }

-- The same two topics, linked once more in one direction.
abbrev wish : Wish
wish = record {
  local_room = [];
  local_topic = sports;
  remote_room = [];
  remote_topic = news;
  dir = both;
  creator = carol;
  ttl = pos 0;
}

road-Elsewhere : Elsewhere road town.bridges_by_topic
unfolding find
road-Elsewhere tk a b = rw (ne→same news tk (λ e. a (sym e)), ne→same sports tk (λ e. b (sym e))) tt

unbridge_lem_example : (unbridge (codes "br2") town).1 ≡ true
unfolding find text_discrete
unbridge_lem_example = (unbridge_lem (codes "br2") town road refl road-Elsewhere).0
