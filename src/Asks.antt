-- ===== src/Asks.antt =====
-- broker.go: `mess ask` and what answers it. SendAsk takes the lock once to send and once to remember
-- the question; the model runs the two one behind the other.
pub mod Answers
pub mod Table
use mess.Base.{
  ℕ, Text, Bool, true, false, ◌&&◌, ◌||◌, not, List, [], ◌∷◌, map, Option, none, some, Map, find,
  put, delete, same, ltb, if◌then◌else◌, contains, length, select, any, sort_by, ℤ, pos, lt_int,
  le_int,
}
use mess.Rooms.{bare, text_lt}
use mess.Ids.{msg_seq}
use mess.Mentions.{mentions_in}
use mess.Wire.{Message}
use mess.State.{AskInfo, Broker, Env}
use mess.Pending.{make_room}
use mess.Direct.{plain, send}
use mess.Inbox.{drain_by, has_pending_by, wait_chan_by}

abbrev pub max_pending_asks : ℕ
max_pending_asks = 1024

unfoldable pub remember_ask : Text → Text → Text → Broker → Broker
remember_ask token asker askee b = elim (msg_seq token) [
  | none ↦ b
  | some seq ↦ record b {
    asks =
        put token (record { asker = asker; askee = askee; seq = seq; ambiguous_up_to = pos 0 })
          (make_room (λ t (i : AskInfo). some i.seq) max_pending_asks b.asks);
  }
]

-- `send` with the ask flag, then `rememberAsk` under the new message's id.
unfoldable pub send_ask : Env → Text → Text → Text → Broker → Option (Broker × Message × Option ℕ)
send_ask env from to body b = elim (send env from to body (record plain { is_ask = true }) b) [
  | none ↦ none
  | some (b', m, ch) ↦ some (remember_ask m.id from to b', m, ch)
]

in_time : Option ℤ → AskInfo → Bool
in_time none info = false
in_time (some seq) info = lt_int info.seq seq && lt_int info.ambiguous_up_to seq

unfoldable pub mention_could_answer : Message → AskInfo → Bool
unfolding in_time
mention_could_answer m info =
    in_time (msg_seq m.id) info
    && same m.from (bare info.askee)
    && contains (bare info.asker) (mentions_in m.body)

-- Whether an ask other than this one could be meant.
unfoldable pub other_could_be_meant : Message → Text → Map AskInfo → Bool
other_could_be_meant m token = any λ e. not (same e.0 token) && mention_could_answer m e.1

unfoldable pub by_mention : Message → Text → Map AskInfo → Option AskInfo → Bool
by_mention m token asks none = false
by_mention m token asks (some info) =
    mention_could_answer m info && not (other_could_be_meant m token asks)

unfoldable pub answers_ask : Message → Text → Broker → Bool
answers_ask m token b =
    same m.thread_id token || same m.id token || by_mention m token b.asks (find token b.asks)

last_asker : Text → Map AskInfo → Text
last_asker asker [] = asker
last_asker asker ((t, info) ∷ m) = last_asker (bare info.asker) m

-- The verdict on an ask that the message was ambiguous for.
unfoldable pub judge : Message → Option ℤ → AskInfo → AskInfo
judge m none info = info
judge m (some seq) info =
    if mention_could_answer m info && lt_int info.ambiguous_up_to seq
    then record info { ambiguous_up_to = seq }
    else info

unfoldable pub judge_all : Message → Map AskInfo → Map AskInfo
unfolding judge
judge_all m [] = []
judge_all m ((t, info) ∷ asks) = (t, judge m (msg_seq m.id) info) ∷ judge_all m asks

-- The asks that a mention in the message could answer.
abbrev pub open_asks : Message → Map AskInfo → Map AskInfo
open_asks m = select λ e. mention_could_answer m e.1

-- The asker that is named is the one met last.
unfoldable pub ambiguous_mention_tokens : Message → Broker → Broker × Text × List Text
unfolding last_asker judge_all
ambiguous_mention_tokens m b = if ltb (length (open_asks m b.asks)) 2 then (b, [], []) else (
  record b { asks = judge_all m b.asks },
  last_asker [] (open_asks m b.asks),
  sort_by text_lt (map (λ e. e.0) (open_asks m b.asks)),
)

unfoldable pub has_pending_answer : Text → Text → Broker → Bool
has_pending_answer name token b = has_pending_by name (λ m. answers_ask m token b) b

unfoldable pub wait_chan_answer : Text → Text → Broker → Broker × ℕ
wait_chan_answer name token b = wait_chan_by name (λ m. answers_ask m token b) b

none_found : List Message → Bool
none_found [] = true
none_found (m ∷ ms) = false

unfoldable pub drain_answers : Env → Text → Text → Bool → ℕ → Broker → Broker × List Message
unfolding none_found
drain_answers env name token peek max b =
    let (b', msgs) = drain_by env name peek max (λ m. answers_ask m token b) b in
    (record b' { asks = if none_found msgs || peek then b'.asks else delete token b'.asks }, msgs)
