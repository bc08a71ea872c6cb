-- ===== src/Sql/Scanner.antt =====
-- `SplitQueries` of prestoapi/query_splitter.go, with the loop of the standard library's
-- `bufio.Scanner` that it drives: a `nil` token makes the scanner read on, and stops it once the
-- reader has reported the end of the file.
pub mod Measure
pub mod Statements
pub mod Blank
use pbench.Prelude.{
  ℕ, zero, suc, ◌+◌, ◌*◌, Bool, true, false, ◌||◌, Option, none, some, List, [], ◌∷◌, ◌++◌, Text,
  leb, if◌then◌else◌, length, drop,
}
use pbench.Sql.Split.{scan_sql_stmt}

pub data ScanError : Type 0 where
  too_long : ScanError

-- The limit that `SplitQueries` gives to `scanner.Buffer`.
abbrev pub max_token_size : ℕ
max_token_size = 1024 * 1024

-- What one pass of the scanner's loop does with the bytes in its buffer.
pub data Pass : Type 0 where
  emit : Text → Text → Pass
  fill : Text → Pass
  close : Option ScanError → Pass

-- `!at_eof && nothing buffered` reads without a call of the split function.
split : Text → Bool → ℕ × Option Text
split [] false = (0, none)
split [] true = scan_sql_stmt [] true
split (c ∷ s) at_eof = scan_sql_stmt (c ∷ s) at_eof

settle : Text → Bool → ℕ × Option Text → Pass
settle buf at_eof (advance, some token) = emit token (drop advance buf)
settle buf true (advance, none) = close none
settle buf false (advance, none) =
    if leb max_token_size (length (drop advance buf))
    then close (some too_long)
    else fill (drop advance buf)

pub pass : Text → Bool → Pass
unfolding split settle
pass buf at_eof = settle buf at_eof (split buf at_eof)

pub prepend : Text → Option (List Text × Option ScanError) → Option (List Text × Option ScanError)
prepend t none = none
prepend t (some (ts, e)) = some (t ∷ ts, e)

-- What follows a pass, where `loop` is the rest of the loop.
pub follow :
    (Text → List Text → Bool → Option (List Text × Option ScanError))
    → List Text
    → Bool
    → Pass
    → Option (List Text × Option ScanError)
unfolding prepend
follow loop reads at_eof (emit t rest) = prepend t (loop rest reads at_eof)
follow loop [] at_eof (fill rest) = loop rest [] true
follow loop (r ∷ reads) at_eof (fill rest) = loop (rest ++ r) reads false
follow loop reads at_eof (close e) = some ([], e)

-- The calls of `Scan`, where `reads` are the bytes that each later `Read` returns; behind them it
-- reports the end of the file. `none` means that the rounds ran out.
pub scan : ℕ → Text → List Text → Bool → Option (List Text × Option ScanError)
unfolding pass follow
scan zero buf reads at_eof = none
scan (suc rounds) buf reads at_eof = follow (scan rounds) reads at_eof (pass buf at_eof)

unfoldable pub total : List Text → ℕ
total [] = 0
total (r ∷ reads) = length r + suc (total reads)

-- `SplitQueries`: the statements, and the error of the scanner. A round for each byte and each read
-- is enough.
unfoldable pub split_queries : List Text → Option (List Text × Option ScanError)
unfolding scan total
split_queries reads = scan (total reads + 2) [] reads false
