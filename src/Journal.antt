-- ===== src/Journal.antt =====
-- wire/journal.go: the lines of the journal and the search that `mess log` makes in them. The lines
-- are those that parse, of all generations of the file, the oldest first; a regular expression is
-- what its compiled form says of a text.
pub mod Writer
pub mod Shifted
pub mod Rotated
use mess.Base.{
  ℕ, Text, Bool, true, ◌&&◌, ◌||◌, not, List, map, Option, none, some, is_empty, same, ltb,
  if◌then◌else◌, last_n, select, ℤ, is_positive, add_int, ◌==◌,
}
use mess.Mentions.{to_lower}
use mess.Wire.{Message}

pub record JournalLine : Type 0 where
  pub message : Message
  pub room : Text
  pub event : Text
  pub expired_at : ℕ

-- `Now` is left out: the daemon always gives it.
pub record Filter : Type 0 where
  pub room : Text
  pub all : Bool
  pub from : Text
  pub to : Text
  pub topic : Text
  pub grep : Text
  pub since : ℤ
  pub max : ℕ

-- strings.EqualFold, on ASCII letters.
unfoldable pub equal_fold : Text → Text → Bool
unfolding to_lower
equal_fold s t = same (to_lower s) (to_lower t)

-- A field of the filter that is empty lets every line through.
wanted : Text → Bool → Bool
wanted field test = is_empty field || test

matches_body : Option (Text → Bool) → Text → Bool
matches_body none body = true
matches_body (some re) body = re body

unfoldable pub passes : ℕ → Option (Text → Bool) → Filter → JournalLine → Bool
unfolding wanted matches_body
passes now re filter line =
    (filter.all || same line.room filter.room)
    && wanted filter.from (equal_fold line.message.from filter.from)
    && wanted filter.to (equal_fold line.message.to filter.to)
    && wanted filter.topic (same line.message.topic filter.topic)
    && not (is_positive filter.since && ltb (add_int line.message.time filter.since) now)
    && matches_body re line.message.body

-- The last messages of the lines that pass.
unfoldable pub search_lines : ℕ → Option (Text → Bool) → Filter → List JournalLine → List Message
unfolding passes
search_lines now re filter lines =
    let out = map (λ (line : JournalLine). line.message) (select (passes now re filter) lines) in
    if filter.max == 0 then out else last_n filter.max out

-- Without a result the pattern is not a regular expression.
unfoldable pub search_journal :
    (Text → Option (Text → Bool)) → ℕ → Filter → List JournalLine → Option (List Message)
unfolding search_lines
search_journal compile now filter lines =
    if is_empty filter.grep
    then some (search_lines now none filter lines)
    else elim (compile filter.grep) [
      | none ↦ none
      | some re ↦ some (search_lines now (some re) filter lines)
    ]
