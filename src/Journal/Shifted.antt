-- ===== src/Journal/Shifted.antt =====
-- What the renames of a rotation do to the lines of the files.
use mess.Base.{
  ℕ, zero, suc, ◌<◌, ◌≡◌, refl, sym, ap, ap₂, ◌∙◌, Bool, true, List, [], ◌∷◌, ◌++◌, Option, none,
  some, or_zero, arith, append_assoc, append-nil,
}
use mess.Journal.{JournalLine}
use mess.Journal.Writer.{Files, lines_below, set_file, rename_up, shift_old, write_line}

rename_up-below : (n : ℕ) (files : Files) (j : ℕ) → j < n → rename_up n files j ≡ files j
unfolding rename_up set_file
rename_up-below n files j h = ground arith

rename_up-above : (n : ℕ) (files : Files) (j : ℕ) → suc n < j → rename_up n files j ≡ files j
unfolding rename_up set_file
rename_up-above n files j h = ground arith

rename_up-next :
    (n : ℕ) (files : Files) → files (suc n) ≡ none → rename_up n files (suc n) ≡ files n
unfolding rename_up set_file
rename_up-next n files h = ground arith

pub rename_up-here : (n : ℕ) (files : Files) → rename_up n files n ≡ none
unfolding rename_up set_file
rename_up-here n files = ground arith

set_file-other :
    (i : ℕ) (file : Option (List JournalLine)) (files : Files) (j : ℕ)
    → ¬ (j ≡ i)
    → set_file i file files j ≡ files j
unfolding set_file
set_file-other i file files j h = ground arith

-- A file without lines in a free place adds no line.
pub set_file-blank :
    (files : Files) (j : ℕ)
    → files 0 ≡ none
    → or_zero [] (set_file 0 (some []) files j) ≡ or_zero [] (files j)
unfolding set_file
set_file-blank files j h = ground arith

-- The loop over the old generations, with every rename successful.
pub shift_all : ℕ → Files → Files
shift_all zero files = files
shift_all (suc n) files = shift_all n (rename_up (suc n) files)

shift_all-above : (n : ℕ) (files : Files) (j : ℕ) → suc n < j → shift_all n files j ≡ files j
unfolding shift_all
shift_all-above zero files j h = refl
shift_all-above (suc n) files j h =
    shift_all-above n (rename_up (suc n) files) j omega arith ∙ rename_up-above (suc n) files j h

pub lines_below_ext :
    (n : ℕ) (f g : Files)
    → ((j : ℕ) → j < n → or_zero [] (f j) ≡ or_zero [] (g j))
    → lines_below n f ≡ lines_below n g
unfolding lines_below
lines_below_ext zero f g h = refl
lines_below_ext (suc n) f g h =
    ap₂ (◌++◌) (h n omega arith) (lines_below_ext n f g (λ j i. h j omega arith))

-- The files below n move up into a free place without a line lost or out of order.
lines_below-shift_all :
    (n : ℕ) (files : Files)
    → files (suc n) ≡ none
    → lines_below (suc (suc n)) (rename_up 0 (shift_all n files)) ≡ lines_below (suc n) files
unfolding lines_below shift_all
lines_below-shift_all zero files h =
    ap₂ (λ a b. or_zero [] a ++ (or_zero [] b ++ [])) (rename_up-next 0 files h)
      (rename_up-here 0 files)
lines_below-shift_all (suc n) files h =
    ap₂ (◌++◌)
      (ap (or_zero []) (
        rename_up-above 0 (shift_all n moved) (suc (suc n)) omega arith
        ∙ shift_all-above n moved (suc (suc n)) omega arith
        ∙ rename_up-next (suc n) files h))
      (lines_below-shift_all n moved (rename_up-here (suc n) files)
        ∙ lines_below_ext (suc n) moved files
            (λ j i. ap (or_zero []) (rename_up-below (suc n) files j i)))
  where
    moved : Files
    moved = rename_up (suc n) files

pub lines_below-write_line :
    (n : ℕ) (line : JournalLine) (files : Files)
    → lines_below (suc n) (write_line line files) ≡ lines_below (suc n) files ++ line ∷ []
unfolding lines_below write_line set_file
lines_below-write_line zero line files =
    append-nil (or_zero [] (files zero) ++ line ∷ [])
    ∙ ap (λ rest. rest ++ line ∷ []) (sym (append-nil (or_zero [] (files zero))))
lines_below-write_line (suc n) line files =
    ap₂ (λ file rest. or_zero [] file ++ rest) (set_file-other 0 _ files (suc n) (ground arith))
      (lines_below-write_line n line files)
    ∙ sym (append_assoc (or_zero [] (files (suc n))) (lines_below (suc n) files) (line ∷ []))

pub lines_below-rename_up :
    (n : ℕ) (files : Files)
    → files 1 ≡ none
    → lines_below (suc (suc n)) (rename_up 0 files) ≡ lines_below (suc (suc n)) files
unfolding lines_below
lines_below-rename_up zero files h =
    ap₂ (λ a b. or_zero [] a ++ (or_zero [] b ++ [])) (rename_up-next 0 files h)
      (rename_up-here 0 files)
    ∙ sym (ap (λ a. or_zero [] a ++ (or_zero [] (files 0) ++ [])) h)
lines_below-rename_up (suc n) files h =
    ap₂ (λ file rest. or_zero [] file ++ rest) (rename_up-above 0 files (suc (suc n)) omega arith)
      (lines_below-rename_up n files h)

pub shift_all-first : (n : ℕ) (files : Files) → shift_all (suc n) files 1 ≡ none
unfolding shift_all
shift_all-first zero files = rename_up-here 1 files
shift_all-first (suc n) files = shift_all-first n (rename_up (suc (suc n)) files)

-- The generations below 5, after those above them have made room.
unfoldable pub freed : Files → Files
freed files = set_file 5 none files

pub lines_below-freed :
    (files : Files) → lines_below 6 (rename_up 0 (shift_all 4 (freed files))) ≡ lines_below 5 files
unfolding freed set_file
lines_below-freed files =
    lines_below-shift_all 4 (freed files) refl
    ∙ lines_below_ext 5 (freed files) files
        (λ j i. ap (or_zero []) (set_file-other 5 none files j omega arith))

pub shift_old-shift_all :
    (moves : ℕ → Bool) (all : (i : ℕ) → moves i ≡ true) (n : ℕ) (files : Files)
    → shift_old moves n files ≡ shift_all n files
unfolding shift_old shift_all
shift_old-shift_all moves all zero files = refl
shift_old-shift_all moves all (suc n) files =
    rw (all (suc n)) (shift_old-shift_all moves all n (rename_up (suc n) files))
