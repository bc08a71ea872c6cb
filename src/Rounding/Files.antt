-- ===== src/Rounding/Files.antt =====
-- `processRoundDecimalFile` of cmd/round/main.go, on the lines that the scanner of the file returns.
-- Writes to the output file are taken to succeed.
pub mod Rows
use mathlib.Core.List.{reverse}
use pbench.Prelude.{
  ℕ, zero, suc, ◌+◌, ◌≡◌, refl, Bool, true, false, ◌||◌, Option, none, some, List, [], ◌∷◌, ◌++◌,
  Text, codes, ◌==◌, text_eq, if◌then◌else◌, length,
}
use pbench.Rounding.Fields.{ScanError, scan_row}
use pbench.Rounding.Decimals.{find_decimal, Format, csv, json, formatted, rewritten}

is_bracket : ℕ → Bool
is_bracket c = c == b'[' || c == b']'

trim_brackets_left : Text → Text
unfolding is_bracket
trim_brackets_left [] = []
trim_brackets_left (c ∷ s) = let rest = trim_brackets_left s in if is_bracket c then rest else c ∷ s

-- `rowContent`
pub row_content : Format → Text → Text
unfolding trim_brackets_left
row_content csv line = line
row_content json line = reverse (trim_brackets_left (reverse (trim_brackets_left line)))

pub data FileError : Type 0 where
  bad_row : ℕ → ScanError → FileError
  column_count : ℕ → FileError
  not_created : FileError
  not_ended : FileError

-- The first line: the indexes of the columns that match, and the columns.
pub mark_decimals : Format → ℕ → ℕ → List Text → List ℕ × List Text
mark_decimals f p i [] = ([], [])
mark_decimals f p i (col ∷ cols) =
    let (idxs, rest) = mark_decimals f p (suc i) cols in
    elim (find_decimal p col) [
      | none ↦ (idxs, col ∷ rest)
      | some t ↦ (i ∷ idxs, formatted f t ∷ rest)
    ]

-- `cols[idx] = …`, if the column matches.
pub rewrite_at : Format → ℕ → ℕ → List Text → List Text
unfolding rewritten
rewrite_at f p i [] = []
rewrite_at f p zero (col ∷ cols) = rewritten f p col ∷ cols
rewrite_at f p (suc i) (col ∷ cols) = col ∷ rewrite_at f p i cols

pub rewrite_all : Format → ℕ → List ℕ → List Text → List Text
unfolding rewrite_at
rewrite_all f p [] cols = cols
rewrite_all f p (i ∷ idxs) cols = rewrite_all f p idxs (rewrite_at f p i cols)

pub join_columns : List Text → Text
join_columns [] = []
join_columns (col ∷ []) = col
join_columns (col ∷ next ∷ cols) = col ++ b',' ∷ join_columns (next ∷ cols)

pub written_line : Format → List Text → Text
unfolding join_columns
written_line csv cols = join_columns cols ++ b'\n' ∷ []
written_line json cols = b'[' ∷ (join_columns cols ++ b']' ∷ b'\n' ∷ [])

-- What becomes of a file: no column matched, or the lines of the output file, or an error, for which the
-- output file is removed.
pub data FileOutcome : Type 0 where
  no_decimal : FileOutcome
  written : List Text → FileOutcome
  failed : FileError → FileOutcome

abbrev pub prepend_line : Text → FileOutcome → FileOutcome
prepend_line line no_decimal = no_decimal
prepend_line line (written ls) = written (line ∷ ls)
prepend_line line (failed e) = failed e

-- The columns of a line, or its error.
abbrev pub with_columns :
    ℕ → Option (List Text × Option ScanError) → (List Text → FileOutcome) → FileOutcome
with_columns n none k = failed not_ended
with_columns n (some (cols, some e)) k = failed (bad_row n e)
with_columns n (some (cols, none)) k = k cols

-- The lines behind the first, from line `n` on.
pub other_lines : Format → ℕ → List ℕ → ℕ → ℕ → List Text → FileOutcome
unfolding row_content rewrite_all written_line
other_lines f p idxs count n [] = written []
other_lines f p idxs count n (line ∷ lines) =
    let rest = other_lines f p idxs count (suc n) lines in
    with_columns n (scan_row (row_content f line)) (λ cols.
      if length cols == count
      then prepend_line (written_line f (rewrite_all f p idxs cols)) rest
      else failed (column_count n))

-- Behind the first line, where `created` says whether the output file could be created.
pub first_line : Format → ℕ → Bool → List Text → List ℕ × List Text → FileOutcome
unfolding other_lines written_line
first_line f p created lines ([], cols) = no_decimal
first_line f p true lines (i ∷ idxs, cols) =
    prepend_line (written_line f cols) (other_lines f p (i ∷ idxs) (length cols) 2 lines)
first_line f p false lines (i ∷ idxs, cols) = failed not_created

unfoldable pub process_lines : Format → ℕ → Bool → List Text → FileOutcome
unfolding first_line mark_decimals row_content
process_lines f p created [] = no_decimal
process_lines f p created (line ∷ lines) =
    with_columns 1 (scan_row (row_content f line))
      (λ cols. first_line f p created lines (mark_decimals f p 0 cols))

-- What the deferred function does to the files.
pub data Effect : Type 0 where
  unchanged : Effect
  new_file : List Text → Effect
  replaced : List Text → Effect

pub settle_file : Bool → FileOutcome → Effect
settle_file in_place no_decimal = unchanged
settle_file in_place (failed e) = unchanged
settle_file true (written ls) = replaced ls
settle_file false (written ls) = new_file ls
