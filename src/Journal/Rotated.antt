-- ===== src/Journal/Rotated.antt =====
-- What a rotation keeps.
use mess.Base.{
  ℕ, ◌+◌, ◌≡◌, refl, sym, ap, ◌∙◌, Bool, true, false, [], ◌∷◌, ◌++◌, none, some, ◌||◌, ◌&&◌, ltb,
  if◌then◌else◌,
}
use mess.Journal.{JournalLine}
use mess.Journal.Writer.{
  close_fails, is_written, marshal_fails, write_fails, WriteFault, WriteFault, no_fault,
  rename_fails, open_fails, Files, lines_below, set_file, rename_up, shift_old, JournalWriter,
  Fault, rotate_locked, write_line, append, journal_rotate_size,
}
use mess.Journal.Shifted.{
  rename_up-here, set_file-blank, shift_all, lines_below_ext, lines_below-write_line,
  lines_below-rename_up, shift_all-first, freed, lines_below-freed, shift_old-shift_all,
}

-- How many files keep their lines in a rotation.
abbrev pub spared : Fault → ℕ
spared close_fails = 6
spared no_fault = 5
spared rename_fails = 5
spared open_fails = 5

abbrev pub is_none : Fault → Bool
is_none no_fault = true
is_none close_fails = false
is_none rename_fails = false
is_none open_fails = false

spared-write_line :
    (fault : Fault) (line : JournalLine) (files : Files)
    → lines_below (spared fault) (write_line line files)
      ≡ lines_below (spared fault) files ++ line ∷ []
spared-write_line close_fails line files = lines_below-write_line 5 line files
spared-write_line no_fault line files = lines_below-write_line 4 line files
spared-write_line open_fails line files = lines_below-write_line 4 line files
spared-write_line rename_fails line files = lines_below-write_line 4 line files

shifted : JournalWriter → Files
unfolding freed
shifted w = shift_all 4 (freed w.files)

module _ (moves : ℕ → Bool) (all : (i : ℕ) → moves i ≡ true) where
  moved-shifted : (w : JournalWriter) → shift_old moves 4 (set_file 5 none w.files) ≡ shifted w
  unfolding shifted freed
  moved-shifted w = shift_old-shift_all moves all 4 (set_file 5 none w.files)

  -- A rotation, whether it succeeds or not, drops the lines of generation 5 and no other, and none if
  -- the file could not be closed.
  rotate_locked_lem :
      (fault : Fault) (w : JournalWriter)
      → lines_below 6 (rotate_locked moves fault w).files ≡ lines_below (spared fault) w.files
  unfolding rotate_locked shifted
  rotate_locked_lem close_fails w = refl
  rotate_locked_lem no_fault w =
      ap (λ f. lines_below 6 (set_file 0 (some []) (rename_up 0 f))) (moved-shifted w)
      ∙ lines_below_ext 6 (set_file 0 (some []) (rename_up 0 (shifted w))) (rename_up 0 (shifted w))
          (λ j i. set_file-blank (rename_up 0 (shifted w)) j (rename_up-here 0 (shifted w)))
      ∙ lines_below-freed w.files
  rotate_locked_lem open_fails w =
      ap (λ f. lines_below 6 (rename_up 0 f)) (moved-shifted w) ∙ lines_below-freed w.files
  rotate_locked_lem rename_fails w =
      ap (lines_below 6) (moved-shifted w)
      ∙ sym (lines_below-rename_up 4 (shifted w) (shift_all-first 3 (freed w.files)))
      ∙ lines_below-freed w.files

  rotate_locked-is_open :
      (fault : Fault) (w : JournalWriter) → (rotate_locked moves fault w).is_open ≡ is_none fault
  unfolding rotate_locked
  rotate_locked-is_open no_fault w = refl
  rotate_locked-is_open close_fails w = refl
  rotate_locked-is_open open_fails w = refl
  rotate_locked-is_open rename_fails w = refl

  written_lem :
      (small : Bool) (fault : Fault) (line : JournalLine) (files : Files) (w : JournalWriter)
      → w.files ≡ write_line line files
      → w.is_open ≡ true
      → let after = if small then w else rotate_locked moves fault w in
        (after.is_open ≡ small || is_none fault)
        × (lines_below 6 after.files
            ≡ lines_below (if small then 6 else spared fault) files ++ line ∷ [])
  written_lem true fault line files w h o =
      (o, ap (lines_below 6) h ∙ lines_below-write_line 5 line files)
  written_lem false fault line files w h o = (
    rotate_locked-is_open fault w,
    rotate_locked_lem fault w
        ∙ ap (lines_below (spared fault)) h
        ∙ spared-write_line fault line files,
  )

-- Whether the file that is written is still below the size at which it is rotated.
abbrev pub stays_small : (JournalLine → ℕ) → JournalLine → JournalWriter → Bool
stays_small bytes line w = ltb (w.size + bytes line) journal_rotate_size

abbrev pub is_done : WriteFault → Bool
is_done is_written = true
is_done marshal_fails = false
is_done write_fails = false

-- Whether the writer still takes lines once it tried to write one.
abbrev pub goes_on : WriteFault → Bool → Bool
goes_on is_written rotated = rotated
goes_on marshal_fails rotated = true
goes_on write_fails rotated = false

abbrev pub Written :
    (JournalLine → ℕ) → (ℕ → Bool) → WriteFault → Fault → JournalLine → JournalWriter → Type 0
Written bytes moves writing fault line w =
    let after = append bytes moves writing fault line w in
    let small = stays_small bytes line w in
    (after.1 ≡ w.is_open && is_done writing)
    × (after.0.is_open ≡ w.is_open && goes_on writing (small || is_none fault))
    × (lines_below 6 after.0.files ≡ (
        if w.is_open && is_done writing
        then lines_below (if small then 6 else spared fault) w.files ++ line ∷ []
        else lines_below 6 w.files))

module _ (moves : ℕ → Bool) (all : (i : ℕ) → moves i ≡ true) where
  append_by :
      (bytes : JournalLine → ℕ) (writing : WriteFault) (fault : Fault) (line : JournalLine)
      (w : JournalWriter) (b : Bool)
      → w.is_open ≡ b
      → Written bytes moves writing fault line w
  unfolding append
  append_by bytes is_written fault line w true h =
      let small = stays_small bytes line w in
      let after = written_lem moves all small fault line w.files _ refl refl in
      rw h (refl, after.0, after.1)
  append_by bytes marshal_fails fault line w true h = rw h (refl, refl, refl)
  append_by bytes write_fails fault line w true h = rw h (refl, refl, refl)
  append_by bytes is_written fault line w false h = rw h (refl, refl, refl)
  append_by bytes marshal_fails fault line w false h = rw h (refl, refl, refl)
  append_by bytes write_fails fault line w false h = rw h (refl, refl, refl)

  -- Where the renames of old generations succeed: a line that is appended to an open journal, and that
  -- can be encoded and written, is the last of all lines of the journal, after the lines that were
  -- there in their order, also when the rotation fails; the lines of the oldest generation are lost if
  -- the file has reached the size at which it is rotated and could be closed, and no others. The
  -- journal is open afterwards unless the write failed, or it had to be rotated and that failed. A line
  -- that is not written is reported and leaves all lines as they were, and a journal that is not open
  -- takes none and stays closed.
  pub append_lem :
      (bytes : JournalLine → ℕ) (writing : WriteFault) (fault : Fault) (line : JournalLine)
      (w : JournalWriter)
      → Written bytes moves writing fault line w
  append_lem bytes writing fault line w = append_by bytes writing fault line w w.is_open refl
