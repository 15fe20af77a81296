-- ===== src/Asks/Table.antt =====
-- The table of open questions stays bounded.
use mess.Base.{
  ◌≤◌, Text, ◌≡◌, refl, false, [], ◌∷◌, Option, some, find, find-put_self, put, arith, length, ℤ,
  pos, is_empty,
}
use mess.Ids.{msg_seq}
use mess.State.{AskInfo, Broker}
use mess.Pending.{make_room}
use mess.Pending.Bound.{Ordered, put-Ordered, make_room-lt, length-put-le}
use mess.Asks.{max_pending_asks, remember_ask}

abbrev pub ask_seq : Text → AskInfo → Option ℤ
ask_seq token info = some info.seq

-- Proper tokens, and no more of them than the limit.
abbrev pub AsksIsValid : Broker → Type 0
AsksIsValid b = Ordered ask_seq b.asks × (length b.asks ≤ max_pending_asks)

token-proper : (token : Text) (seq : ℤ) → msg_seq token ≡ some seq → is_empty token ≡ false
unfolding msg_seq
token-proper [] seq e = cc
token-proper (c ∷ token) seq e = refl

-- Recording a question under a message id keeps the table of open questions within its limit of
-- 1024, whatever has to be dropped for it: the loop that makes room ends. The new question is in
-- the table, with its own sequence number and no verdict.
pub remember_ask-AsksIsValid :
    (token asker askee : Text) (seq : ℤ) (b : Broker)
    → msg_seq token ≡ some seq
    → AsksIsValid b
    → AsksIsValid (remember_ask token asker askee b)
      × (find token (remember_ask token asker askee b).asks
          ≡ some (record { asker = asker; askee = askee; seq = seq; ambiguous_up_to = pos 0 }))
unfolding remember_ask
remember_ask-AsksIsValid token asker askee seq b e v =
    let info : AskInfo = record {
      asker = asker;
      askee = askee;
      seq = seq;
      ambiguous_up_to = pos 0;
    } in
    let room = make_room ask_seq max_pending_asks b.asks in
    let (space, ordered) = make_room-lt ask_seq max_pending_asks b.asks (omega arith) v.0 in
    let step : (remember_ask token asker askee b).asks ≡ put token info room = ground arith in
    rw step (
      (
        put-Ordered ask_seq token info room (token-proper token seq e) refl ordered,
        omega (arith, length-put-le token info room),
      ),
      find-put_self token info room,
    )
