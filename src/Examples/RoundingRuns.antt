-- ===== src/Examples/RoundingRuns.antt =====
-- Runs of the command `round`.
use pbench.Prelude.{ℕ, ◌≡◌, refl, true, false, some, List, [], ◌∷◌, arith, Text, codes, trim_space}
use pbench.Rounding.Fields.{scan_comma_separated_field, outside, scan_row}
use pbench.Rounding.Fields.Columns.{columns, pieces, scan_row-columns}
use pbench.Rounding.Decimals.{find_decimal, IsNumberIn, find_decimal-IsNumberIn, json}
use pbench.Rounding.Files.{process_lines, written}
use pbench.Rounding.Files.Rows.{IsIncreasing, Written, process_lines-Written}

abbrev row : Text
row = codes "a,'b,c',2.50000"

scan_row-columns_example :
    scan_row row
    ≡ some (
        columns false (pieces [] row outside).0 (pieces [] row outside).1 (pieces [] row outside).2)
scan_row-columns_example = scan_row-columns row (omega arith)

found : find_decimal 2 (codes "v2.50999 beta") ≡ some (codes "2.50")
unfolding find_decimal
found = refl

find_decimal-IsNumberIn_example : IsNumberIn 2 (codes "v2.50999 beta") (codes "2.50")
find_decimal-IsNumberIn_example =
    find_decimal-IsNumberIn 2 (codes "v2.50999 beta") (codes "2.50") found

abbrev lines : List Text
lines = codes "[\"a\", 2.50999]" ∷ codes "[\"b\", 3]" ∷ []

abbrev output : List Text
output = codes "[\"a\",2.50]\n" ∷ codes "[\"b\",3]\n" ∷ []

lines_written : process_lines json 2 true lines ≡ written output
unfolding process_lines scan_row scan_comma_separated_field trim_space find_decimal
lines_written = refl

process_lines-Written_example :
    (idxs : List ℕ) × (count : ℕ) × IsIncreasing 0 idxs × Written json 2 idxs count lines output
process_lines-Written_example = process_lines-Written json 2 lines output lines_written
