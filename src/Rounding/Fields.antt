-- ===== src/Rounding/Fields.antt =====
-- `scanCommaSeparatedField` of cmd/round/main.go, with the loop of `bufio.Scanner` that drives it over a
-- row. As in Sql/Split, the loop's `pos` cuts the bytes in two.
pub mod Lexer
pub mod Columns
use mathlib.Core.List.{reverse}
use pbench.Prelude.{
  ℕ, zero, suc, ◌+◌, ◌*◌, ◌%◌, ◌≡◌, refl, Bool, true, false, ◌&&◌, ◌||◌, Option, none, some, List,
  [], ◌∷◌, ◌++◌, Text, codes, ◌==◌, leb, if◌then◌else◌, length, drop, trim_space,
}
use pbench.Sql.Split.{seek, backslashes}

-- `inQuote`, which is zero outside.
pub data Mode : Type 0 where
  outside : Mode
  inside : ℕ → Mode

-- The characters of "'\",\\n", a raw literal: a backslash and the letter n are among them.
pub is_mark : ℕ → Bool
is_mark c = c == b'\'' || c == b'"' || c == b',' || c == b'\\' || c == b'n'

-- What one round of the loop does, its `pos++` included: it stops, it cuts at a comma, or it goes on.
pub data Step : Type 0 where
  stop : Mode → Step
  cut : Text → Text → Step
  go : Text → Text → Mode → Step

pub outside_step : Text × Text → Step
outside_step (before, []) = stop outside
outside_step (before, c ∷ rest) =
    if c == b'"' || c == b'\''
    then go (c ∷ before) rest (inside c)
    else if c == b',' || c == b'\n'
    then cut before rest
    else go (c ∷ before) rest outside

pub inside_step : ℕ → Text × Text → Step
inside_step q (before, []) = stop (inside q)
inside_step q (before, c ∷ rest) =
    if backslashes before % 2 == 0
    then go (c ∷ before) rest outside
    else go (c ∷ before) rest (inside q)

pub field_step : Text → Text → Mode → Step
unfolding outside_step inside_step seek is_mark backslashes
field_step before rest outside = outside_step (seek is_mark before rest)
field_step before rest (inside q) = inside_step q (seek (λ c. c == q) before rest)

-- Where the loop ends: at a comma, with what stands before and behind it, or at the end of the bytes.
pub data FieldEnd : Type 0 where
  at_comma : Text → Text → FieldEnd
  at_end : Mode → FieldEnd

pub continue : (Text → Text → Mode → FieldEnd) → Step → FieldEnd
continue loop (stop m) = at_end m
continue loop (cut before rest) = at_comma before rest
continue loop (go before rest m) = loop before rest m

pub field_loop : ℕ → Text → Text → Mode → FieldEnd
unfolding field_step continue
field_loop zero before rest m = at_end m
field_loop (suc rounds) before rest m = continue (field_loop rounds) (field_step before rest m)

-- What a split function returns: how far to advance, and a token if there is one, or an error.
pub data Split : Type 0 where
  advance : ℕ → Option Text → Split
  expecting : ℕ → Split

pub token_of : ℕ → Text → Split
token_of n [] = advance n none
token_of n (c ∷ s) = advance n (some (c ∷ s))

pub field_of : Text → Bool → FieldEnd → Split
unfolding token_of
field_of bytes at_eof (at_comma before rest) =
    token_of (length before + 1) (trim_space (reverse before))
field_of bytes true (at_end (inside q)) = expecting q
field_of bytes true (at_end outside) = token_of (length bytes) (trim_space bytes)
field_of bytes false (at_end m) = advance 0 none

-- `scanCommaSeparatedField`
unfoldable pub scan_comma_separated_field : Text → Bool → Split
unfolding field_of field_loop
scan_comma_separated_field [] true = advance 0 none
scan_comma_separated_field bytes at_eof =
    field_of bytes at_eof (field_loop (length bytes) [] bytes outside)

pub data ScanError : Type 0 where
  unclosed : ℕ → ScanError
  too_long : ScanError

-- `bufio.MaxScanTokenSize`
abbrev pub max_scan_token_size : ℕ
max_scan_token_size = 64 * 1024

-- What one pass of the scanner's loop does with the bytes in its buffer.
pub data Pass : Type 0 where
  emit : Text → Text → Pass
  fill : Text → Pass
  close : Option ScanError → Pass

-- Without a token the scanner reads on, and ends if it has been told of the end of the row.
pub settle : Text → Bool → Split → Pass
settle buf at_eof (advance n (some t)) = emit t (drop n buf)
settle buf true (advance n none) = close none
settle buf false (advance n none) =
    if leb max_scan_token_size (length (drop n buf))
    then close (some too_long)
    else fill (drop n buf)
settle buf at_eof (expecting q) = close (some (unclosed q))

pub pass : Text → Bool → Pass
unfolding settle
pass [] false = fill []
pass [] true = settle [] true (scan_comma_separated_field [] true)
pass (c ∷ s) at_eof = settle (c ∷ s) at_eof (scan_comma_separated_field (c ∷ s) at_eof)

abbrev pub Scanned : Type 0
Scanned = Option (List Text × Option ScanError)

pub prepend : Text → Scanned → Scanned
prepend t none = none
prepend t (some (ts, e)) = some (t ∷ ts, e)

pub follow : (Text → List Text → Bool → Scanned) → List Text → Bool → Pass → Scanned
unfolding prepend
follow loop reads at_eof (emit t rest) = prepend t (loop rest reads at_eof)
follow loop [] at_eof (fill rest) = loop rest [] true
follow loop (r ∷ reads) at_eof (fill rest) = loop (rest ++ r) reads false
follow loop reads at_eof (close e) = some ([], e)

-- The calls of `Scan`, where `reads` are the bytes that each later `Read` returns; behind them it
-- reports the end of the row. Nothing stands for rounds that ran out.
pub scan : ℕ → Text → List Text → Bool → Scanned
unfolding pass follow
scan zero buf reads at_eof = none
scan (suc rounds) buf reads at_eof = follow (scan rounds) reads at_eof (pass buf at_eof)

-- The columns of a row that is read at once, as one of up to 4096 bytes is.
unfoldable pub scan_row : Text → Scanned
unfolding scan
scan_row row = scan (length row + 3) [] (row ∷ []) false

two_columns :
    scan_row (codes "a, 'b,c' ,\"d\\\"\"")
    ≡ some (codes "a" ∷ codes "'b,c'" ∷ codes "\"d\\\"\"" ∷ [], none)
unfolding scan_row scan_comma_separated_field trim_space
two_columns = refl

dropped_columns : scan_row (codes "a,,b,,c") ≡ some (codes "a" ∷ codes "b" ∷ [], none)
unfolding scan_row scan_comma_separated_field trim_space
dropped_columns = refl
