-- ===== src/Journal/Writer.antt =====
-- journal.go: the writer of the journal and the rotation of its files. File 0 is the one that is
-- written, file i its i-th generation. How many bytes a line takes is an argument, and so is what goes
-- wrong: before a line is in the file, in a rotation, and in the renames of the old generations, which
-- the code does not check.
use mess.Base.{
  ℕ, zero, suc, ◌+◌, ◌*◌, Bool, true, false, List, [], ◌∷◌, ◌++◌, Option, none, some, ◌==◌, ltb,
  or_zero, if◌then◌else◌,
}
use mess.Journal.{JournalLine}

abbrev pub journal_max_generations : ℕ
journal_max_generations = 5

abbrev pub journal_rotate_size : ℕ
journal_rotate_size = 50 * 1024 * 1024

-- The files that exist, with their lines.
abbrev pub Files : Type 0
Files = ℕ → Option (List JournalLine)

-- The lines of all files below n, the oldest generation first, as the reader meets them.
unfoldable pub lines_below : ℕ → Files → List JournalLine
lines_below zero files = []
lines_below (suc n) files = or_zero [] (files n) ++ lines_below n files

-- A file is put in place, or removed.
unfoldable pub set_file : ℕ → Option (List JournalLine) → Files → Files
set_file i file files j = if j == i then file else files j

-- os.Rename to the next generation, if the file exists.
unfoldable pub rename_up : ℕ → Files → Files
unfolding set_file
rename_up i files = elim (files i) [
  | none ↦ files
  | some file ↦ set_file i none (set_file (suc i) (some file) files)
]

-- What goes wrong before a line is in the file: json.Marshal, or the write with its flush.
pub data WriteFault : Type 0 where
  is_written marshal_fails write_fails : WriteFault

-- What goes wrong in a rotation.
pub data Fault : Type 0 where
  no_fault close_fails rename_fails open_fails : Fault

-- A writer that is not open refuses every line, as its file is closed or its buffer keeps an error.
pub record JournalWriter : Type 0 where
  pub files : Files
  pub size : ℕ
  pub is_open : Bool

-- A rename that fails goes unnoticed.
unfoldable pub rename_if : Bool → ℕ → Files → Files
unfolding rename_up
rename_if true i files = rename_up i files
rename_if false i files = files

-- The loop over the old generations, without the file that is written; `moves` says which renames
-- succeed.
unfoldable pub shift_old : (ℕ → Bool) → ℕ → Files → Files
unfolding rename_if
shift_old moves zero files = files
shift_old moves (suc n) files = shift_old moves n (rename_if (moves (suc n)) (suc n) files)

-- The file that is written is closed before anything moves, and its buffer, flushed before, is empty;
-- only a new one that could be opened takes its place.
unfoldable pub rotate_locked : (ℕ → Bool) → Fault → JournalWriter → JournalWriter
unfolding shift_old
rotate_locked moves fault w =
    let moved = shift_old moves 4 (set_file journal_max_generations none w.files) in
    let renamed = rename_up 0 moved in
    elim fault [
      | close_fails ↦ record w { is_open = false }
      | rename_fails ↦ record w { files = moved; is_open = false }
      | open_fails ↦ record w { files = renamed; is_open = false }
      | no_fault ↦ record { files = set_file 0 (some []) renamed; size = 0; is_open = true }
    ]

unfoldable pub write_line : JournalLine → Files → Files
write_line line files = set_file 0 (some (or_zero [] (files 0) ++ line ∷ [])) files

-- The flag says that the line was written. A part of a line that a failed write left is no line.
unfoldable pub append :
    (JournalLine → ℕ)
    → (ℕ → Bool)
    → WriteFault
    → Fault
    → JournalLine
    → JournalWriter
    → JournalWriter × Bool
unfolding rotate_locked write_line
append bytes moves writing fault line w =
    let size = w.size + bytes line in
    let written = record w { files = write_line line w.files; size = size } in
    if w.is_open
    then elim writing [
      | marshal_fails ↦ (w, false)
      | write_fails ↦ (record w { is_open = false }, false)
      | is_written ↦ (
        if ltb size journal_rotate_size then written else rotate_locked moves fault written,
        true,
      )
    ]
    else (w, false)
