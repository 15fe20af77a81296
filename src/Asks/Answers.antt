-- ===== src/Asks/Answers.antt =====
-- A mention answers one question or none, and a verdict of ambiguity is kept.
use mess.Base.{
  ◌<◌, Text, ◌≡◌, ◌≢◌, refl, true, false, ◌||◌, [], ◌∷◌, Option, none, some, Map, find, arith, same,
  lt_int, ℤ, pos, negsuc, length, any, Option-cases, inl, inr,
}
use mess.Ids.{msg_seq}
use mess.Wire.{Message}
use mess.State.{AskInfo, Broker}
use mess.Asks.{
  mention_could_answer, other_could_be_meant, answers_ask, by_mention, judge, judge_all, open_asks,
  ambiguous_mention_tokens,
}

-- An ask in the table that the message could answer stands in the way of every other ask.
found_could_be_meant :
    (m : Message) (token other : Text) (asks : Map AskInfo) (info : AskInfo)
    → other ≢ token
    → find other asks ≡ some info
    → mention_could_answer m info ≡ true
    → other_could_be_meant m token asks ≡ true
unfolding find other_could_be_meant any
found_could_be_meant m token other [] info h e c = cc
found_could_be_meant m token other ((t, i) ∷ asks) info h e c =
    ground (arith, found_could_be_meant m token other asks info)

-- A message that is threaded under neither of two questions, and is neither of them, answers at
-- most one of the two.
pub mention_answers_one :
    (m : Message) (t u : Text) (b : Broker)
    → t ≢ u
    → m.thread_id ≢ t
    → m.id ≢ t
    → m.thread_id ≢ u
    → m.id ≢ u
    → answers_ask m t b ≡ true
    → answers_ask m u b ≡ false
unfolding answers_ask by_mention
mention_answers_one m t u b ne h1 h2 h3 h4 a = elim (Option-cases (find u b.asks)) [
  | inl absent ↦ ground arith
  | inr (info, e) ↦ ground (arith, found_could_be_meant m t u b.asks info)
]

lt_int_irrefl : (a : ℤ) → lt_int a a ≡ false
lt_int_irrefl (pos n) = ground arith
lt_int_irrefl (negsuc n) = ground arith

judge_rejects_at :
    (m : Message) (info : AskInfo) (s : Option ℤ)
    → msg_seq m.id ≡ s
    → mention_could_answer m (judge m s info) ≡ false
unfolding judge mention_could_answer
judge_rejects_at m info none e = ground arith
judge_rejects_at m info (some seq) e = ground (arith, lt_int_irrefl seq)

judge_rejects :
    (m : Message) (info : AskInfo) → mention_could_answer m (judge m (msg_seq m.id) info) ≡ false
judge_rejects m info = judge_rejects_at m info (msg_seq m.id) refl

find-judge_all :
    (m : Message) (t : Text) (asks : Map AskInfo)
    → find t (judge_all m asks)
      ≡ elim (find t asks) [ none ↦ none | some i ↦ some (judge m (msg_seq m.id) i) ]
unfolding find judge_all
find-judge_all m t [] = refl
find-judge_all m t ((u, i) ∷ asks) = ground (arith, find-judge_all m t asks)

by_mention_judged :
    (m : Message) (t : Text) (asks others : Map AskInfo)
    → by_mention m t others (find t (judge_all m asks)) ≡ false
unfolding by_mention
by_mention_judged m t asks others = elim (Option-cases (find t asks)) [
  | inl e ↦ rw (find-judge_all m t asks, e) refl
  | inr (i, e) ↦ rw (find-judge_all m t asks, e, judge_rejects m i) refl
]

-- Once a message was found ambiguous, as two or more open questions could be meant, its mention
-- answers none of them, ever: in every later state of the broker that still has the verdict, also
-- when the other questions are gone, only the thread counts.
pub verdict_kept :
    (m : Message) (b later : Broker) (t : Text)
    → 1 < length (open_asks m b.asks)
    → find t later.asks ≡ find t (ambiguous_mention_tokens m b).0.asks
    → answers_ask m t later ≡ same m.thread_id t || same m.id t
unfolding answers_ask ambiguous_mention_tokens
verdict_kept m b later t many kept =
    let judged : find t later.asks ≡ find t (judge_all m b.asks) = ground arith in
    ground (arith, judged, by_mention_judged m t b.asks later.asks)
