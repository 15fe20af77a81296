-- ===== src/Dispatch/Logged.antt =====
-- What the journal tells of a message that was sent.
use mess.Direct.{broadcast}
use mess.Topics.{publish}
use mess.Handlers.Mail.{do_broadcast, do_pub}
use mess.Base.{
  ◌∙◌, ◌&&◌, last_n, ◌==◌, if◌then◌else◌, ℕ, codes, ◌≡◌, refl, Text, Bool, true, List, [], ◌∷◌,
  ◌++◌, map, Option, some, select, Bool-cases, inl, inr, ap,
}
use mess.Wire.{Message}
use mess.State.{Broker}
use mess.Journal.Rotated.{append_lem, stays_small, spared}
use mess.Journal.Writer.{Fault, JournalWriter, append, is_written, lines_below}
use mess.Journal.{JournalLine, Filter, passes, search_lines}
use mess.Requests.{attach_from_request, topic_of, self_of, Request}
use mess.Handlers.{Host, journal_append}

abbrev picked : (JournalLine → Bool) → List JournalLine → List Message
picked p lines = map (λ (line : JournalLine). line.message) (select p lines)

picked-append :
    (p : JournalLine → Bool) (lines : List JournalLine) (line : JournalLine)
    → picked p (lines ++ line ∷ []) ≡ picked p lines ++ (if p line then line.message ∷ [] else [])
unfolding select
picked-append p [] line = elim (Bool-cases (p line)) [ inl e ↦ rw e refl | inr e ↦ rw e refl ]
picked-append p (x ∷ lines) line = elim (Bool-cases (p x)) [
  | inl e ↦ rw e (ap (◌∷◌ x.message) (picked-append p lines line))
  | inr e ↦ rw e (picked-append p lines line)
]

-- The line under which a message is journalled.
abbrev pub line_of : Text → Message → JournalLine
line_of room m = record { message = m; room = room; event = codes "sent"; expired_at = 0 }

module _ (now : ℕ) (re : Option (Text → Bool)) (filter : Filter) (unlimited : filter.max ≡ 0) where
  search_lines_all :
      (lines : List JournalLine)
      → search_lines now re filter lines ≡ picked (passes now re filter) lines
  unfolding search_lines
  search_lines_all lines =
      let out = picked (passes now re filter) lines in
      ap (λ (n : ℕ). if n == 0 then out else last_n n out) unlimited

  -- What a search finds once a line was added.
  abbrev Grown : List JournalLine → List JournalLine → JournalLine → Type 0
  Grown lines added line =
      search_lines now re filter (lines ++ added)
      ≡ search_lines now re filter lines
        ++ (if passes now re filter line then line.message ∷ [] else [])

  search_lines-append :
      (lines : List JournalLine) (line : JournalLine) → Grown lines (line ∷ []) line
  search_lines-append lines line =
      rw (search_lines_all (lines ++ line ∷ []), search_lines_all lines)
        (picked-append (passes now re filter) lines line)

  module _ (host : Host) (ok : Message → Bool) (writes : host.writes ≡ some ok) where
    appended :
        (room : Text) (m : Message) → ok m ≡ true → journal_append host room m ≡ line_of room m ∷ []
    unfolding journal_append
    appended room m h = rw (writes, h) refl

    module _ (bytes : JournalLine → ℕ) (moves : ℕ → Bool) (moved : (i : ℕ) → moves i ≡ true)
        (fault : Fault) (w : JournalWriter) (opened : w.is_open ≡ true) where
      -- The lines of all files once these were appended.
      pub stored : List JournalLine → JournalWriter → List JournalLine
      stored [] v = lines_below 6 v.files
      stored (line ∷ lines) v = stored lines (append bytes moves is_written fault line v).0

      -- The lines that are there once a line is appended, but for that line.
      abbrev pub older : JournalLine → List JournalLine
      older line = lines_below (if stays_small bytes line w then 6 else spared fault) w.files

      -- What a search finds once lines were appended.
      abbrev pub Found : List JournalLine → JournalLine → Type 0
      Found added line =
          search_lines now re filter (stored added w)
          ≡ search_lines now re filter (older line)
            ++ (if passes now re filter line then line.message ∷ [] else [])

      stored-line : (line : JournalLine) → stored (line ∷ []) w ≡ older line ++ line ∷ []
      unfolding stored
      stored-line line =
          let (said, open_after, lines) = append_lem moves moved bytes is_written fault line w in
          lines
          ∙ ap
              (λ (is_open : Bool).
                if is_open && true then older line ++ line ∷ [] else lines_below 6 w.files)
              opened

      found-line : (line : JournalLine) → Found (line ∷ []) line
      found-line line =
          ap (search_lines now re filter) (stored-line line) ∙ search_lines-append (older line) line

      -- Where the journal is open and takes the line of a message that was published or broadcast, a
      -- search without a limit then finds that message, once and last, exactly when its line, under the
      -- room of the request, passes the filter; before it, the search finds what it finds in the lines
      -- that were there, without those of the oldest generation if the line took the file to the size
      -- at which it is rotated and it could be closed.
      pub logged_lem :
          (req : Request) (b : Broker)
          → let m =
              (publish host.env
                (self_of req)
                (topic_of req)
                req.body
                req.thread_id
                (attach_from_request req)
                b).1 in
            let n =
              (broadcast host.env (self_of req) req.room req.body req.loud req.host_wide b).1 in
            ok m ≡ true
            → ok n ≡ true
            → Found (do_pub host req b).journaled (line_of req.room m)
              × Found (do_broadcast host req b).journaled (line_of req.room n)
      unfolding do_pub do_broadcast
      logged_lem req b h k =
          (rw (appended req.room _ h) (found-line _), rw (appended req.room _ k) (found-line _))
