-- ===== src/Runs/Questions.antt =====
-- The table of open questions stays in order and within its limit.
use mess.Base.{
  keys_of, ◌≤◌, [], ◌∷◌, Text, Option-cases, inl, inr, delete, Map, sym, subst, ◌≡◌, refl, Distinct,
  arith, length,
}
use mess.Ids.{msg_seq}
use mess.Wire.{Message}
use mess.State.{Agent, Bridge, Broker, AskInfo}
use mess.Asks.{remember_ask, judge_all}
use mess.Asks.Table.{AsksIsValid, remember_ask-AsksIsValid, ask_seq}
use mess.Pending.Bound.{Ordered}
use mess.Runs.Tables.{Sets}
use mess.Runs.Helpers.{IsValid}

remember_ask-frame :
    (token asker askee : Text) (b : Broker)
    → ((remember_ask token asker askee b).topics ≡ b.topics)
      × ((remember_ask token asker askee b).agents ≡ b.agents)
      × ((remember_ask token asker askee b).bridges ≡ b.bridges)
unfolding remember_ask
remember_ask-frame token asker askee b = elim (Option-cases (msg_seq token)) [
  | inl e ↦ rw (remember_ask, e) (refl, refl, refl)
  | inr (seq, e) ↦ rw (remember_ask, e) (refl, refl, refl)
]

remember_ask-asks :
    (token asker askee : Text) (b : Broker)
    → AsksIsValid b
    → AsksIsValid (remember_ask token asker askee b)
unfolding remember_ask
remember_ask-asks token asker askee b v = elim (Option-cases (msg_seq token)) [
  | inl e ↦ rw (remember_ask, e) v
  | inr (seq, e) ↦ (remember_ask-AsksIsValid token asker askee seq b e v).0
]

pub remember_ask-IsValid :
    (token asker askee : Text) (b : Broker) → IsValid b → IsValid (remember_ask token asker askee b)
remember_ask-IsValid token asker askee b v =
    let f = remember_ask-frame token asker askee b in
    (
      subst Sets (sym f.0) v.0,
      subst (λ (m : Map Agent). Distinct (keys_of m)) (sym f.1) v.1,
      subst (λ (m : Map Bridge). Distinct (keys_of m)) (sym f.2) v.2,
      remember_ask-asks token asker askee b v.3,
    )

pub judge_all-Ordered :
    (m : Message) (asks : Map AskInfo) → Ordered ask_seq asks → Ordered ask_seq (judge_all m asks)
unfolding judge_all
judge_all-Ordered m [] h = tt
judge_all-Ordered m ((t, info) ∷ asks) (ht, hi, h) = (ht, refl, judge_all-Ordered m asks h)

pub length-judge_all : (m : Message) (asks : Map AskInfo) → length (judge_all m asks) ≡ length asks
unfolding judge_all
length-judge_all m [] = refl
length-judge_all m ((t, info) ∷ asks) = ground (arith, length-judge_all m asks)

pub length-delete-le : (k : Text) (asks : Map AskInfo) → length (delete k asks) ≤ length asks
unfolding delete
length-delete-le k [] = ground arith
length-delete-le k ((t, info) ∷ asks) = ground (arith, length-delete-le k asks)
