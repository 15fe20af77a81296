-- ===== src/Handlers.antt =====
-- daemon.go: what every case of `dispatch` is given and what it leaves. The broker calls of a case run
-- one behind the other; other clients' calls are let in where a case waits. Log lines and desktop
-- notifications are left out.
pub mod People
pub mod Mail
pub mod Reading
pub mod Invitations
pub mod Upkeep
use mess.Base.{
  ℕ, ◌*◌, Text, codes, Bool, true, false, ◌||◌, List, [], ◌∷◌, Option, none, some, is_empty,
  if◌then◌else◌, ℤ, pos, or_zero,
}
use mess.Wire.{Message}
use mess.State.{Broker, Env}
use mess.Mentions.{is_user_handle}
use mess.Owners.{is_registered, find_other_room}
use mess.Durations.{parse_duration, hour}
use mess.Journal.{JournalLine}
use mess.Requests.{Request}
use mess.Replies.{Failure, Response, done, failed, no_such_agent, registered_elsewhere}
use mess.Runs.{Call}

-- How the wait for a read receipt ends.
pub data AckEnd : Type 0 where
  receipt no_receipt stopping : AckEnd

-- The surroundings of a request: the clock at its calls, and at the second one of an expiry; the parent
-- of a process; the compiler of regular expressions; the lines of the journal; which appends to it
-- succeed, if there is one; and what others call, and how it ends, while the request waits for a
-- receipt.
pub record Host : Type 0 where
  pub env : Env
  pub later : Env
  pub parent_pid : ℕ → ℕ
  pub compile : Text → Option (Text → Bool)
  pub lines : List JournalLine
  pub writes : Option (Message → Bool)
  pub meanwhile : List (Env × Call)
  pub ack_end : AckEnd

-- The state behind a request, its answers, the lines it added to the journal, and whether it stopped
-- the daemon. A request that still waits has no answer yet, and a stream has many.
pub record Outcome : Type 0 where
  pub broker : Broker
  pub replies : List Response
  pub journaled : List JournalLine
  pub stops : Bool

abbrev pub Handler : Type 0
Handler = Host → Request → Broker → Outcome

abbrev pub answer : Broker → Response → Outcome
answer b r = record { broker = b; replies = r ∷ []; journaled = []; stops = false }

-- The state stays as it was.
abbrev pub fails : Broker → Failure → Outcome
fails b e = answer b (failed e)

-- `Response{OK: true, Count: n}`
abbrev pub counted : ℕ → Response
counted n = record done { count = n }

-- `Count: 1`, or 0 for what was not there.
abbrev pub count_of : Bool → ℕ
count_of b = if b then 1 else 0

unfoldable pub journal_append : Host → Text → Message → List JournalLine
journal_append host room m = elim host.writes [
  | none ↦ []
  | some ok ↦
      if ok m
      then record { message = m; room = room; event = codes "sent"; expired_at = 0 } ∷ []
      else []
]

-- A duration that is left out or cannot be read is the default.
unfoldable pub duration_or : ℤ → Text → ℤ
unfolding parse_duration
duration_or default spec = if is_empty spec then default else or_zero default (parse_duration spec)

-- A duration that cannot be read is an error.
unfoldable pub need_duration : ℤ → Text → Option ℤ
unfolding parse_duration
need_duration default spec = if is_empty spec then some default else parse_duration spec

-- Why a message cannot be addressed to this recipient.
unfoldable pub unknown_recipient : Host → Request → Text → Broker → Option Failure
unknown_recipient host req to b =
    if is_user_handle host.env.logins req.to || is_registered to b
    then none
    else elim (find_other_room req.room req.to b) [
      | [] ↦ some (no_such_agent req.to)
      | r ∷ rs ↦ some (registered_elsewhere req.to req.room (r ∷ rs))
    ]
