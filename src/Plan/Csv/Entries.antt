-- ===== src/Plan/Csv/Entries.antt =====
-- What `processFile` of cmd/queryplan/main.go writes, and what it counts.
use pbench.Prelude.{
  ℕ, suc, ◌+◌, ◌≡◌, refl, sym, ap, ◌∙◌, arith, Bool, true, false, Option, none, some, List, [], ◌∷◌,
  ◌++◌, Text, codes, map, append_assoc, append-nil,
}
use pbench.Plan.Joins.{Parsers}
use pbench.Plan.Csv.{
  Json, Parsed, unparsed, without_joins, with_joins, Output, entry, note, crashed, Ending,
  completed, unreadable, aborted, go_on, parse_query_plan, plan_of, process_plan, process_records,
  opened, process_file,
}

-- The entries with their separators: the given one first, and then commas.
abbrev pub separated : Text → List (ℕ × Text) → Text
separated newline [] = []
separated newline ((row, out) ∷ es) = entry newline row out ++ separated (codes ",\n") es

module _ (parsers : Parsers) (json : Json) (jumps depth column : ℕ) where
  -- The plans of the records, with their rows, and what becomes of them.
  abbrev pub outcome : ℕ → Option Text → List (ℕ × Parsed)
  outcome row none = []
  outcome row (some plan) = (row, parse_query_plan parsers json jumps depth plan) ∷ []

  abbrev pub outcomes : ℕ → List (List Text) → List (ℕ × Parsed)
  outcomes row [] = []
  outcomes row (fields ∷ records) =
      outcome row (plan_of parsers json jumps depth column fields) ++ outcomes (suc row) records

-- The entries in front of the first plan at which the program ends.
abbrev pub entries : List (ℕ × Parsed) → List (ℕ × Text)
entries [] = []
entries ((row, crashed) ∷ os) = []
entries ((row, unparsed) ∷ os) = entries os
entries ((row, without_joins) ∷ os) = entries os
entries ((row, with_joins out) ∷ os) = (row, out) ∷ entries os

abbrev pub failures : List (ℕ × Parsed) → ℕ
failures [] = 0
failures ((row, crashed) ∷ os) = 0
failures ((row, unparsed) ∷ os) = suc (failures os)
failures ((row, without_joins) ∷ os) = failures os
failures ((row, with_joins out) ∷ os) = failures os

-- The plans up to that one.
abbrev pub begun_plans : List (ℕ × Parsed) → ℕ
begun_plans [] = 0
begun_plans ((row, crashed) ∷ os) = 1
begun_plans ((row, unparsed) ∷ os) = suc (begun_plans os)
begun_plans ((row, without_joins) ∷ os) = suc (begun_plans os)
begun_plans ((row, with_joins out) ∷ os) = suc (begun_plans os)

abbrev pub ending_of : List (ℕ × Parsed) → Ending
ending_of [] = completed
ending_of ((row, crashed) ∷ os) = aborted
ending_of ((row, unparsed) ∷ os) = ending_of os
ending_of ((row, without_joins) ∷ os) = ending_of os
ending_of ((row, with_joins out) ∷ os) = ending_of os

-- The brace that closes the file, if it comes to that.
abbrev pub closing : Ending → Text
closing completed = codes "\n}"
closing unreadable = []
closing aborted = []

-- The output `o` goes on from `from` by these outcomes, to its end.
abbrev pub IsCompleted : Output → List (ℕ × Parsed) → Output × Ending → Type 0
IsCompleted from os (o, ending) =
    (ending ≡ ending_of os)
    × (o.written ≡ from.written ++ (separated from.newline (entries os) ++ closing (ending_of os)))
    × (o.valid_counter ≡ from.valid_counter + begun_plans os)
    × (o.failure_counter ≡ from.failure_counter + failures os)

-- A plan has been counted.
abbrev counted_plan : Output → Output
counted_plan o = record o { valid_counter = suc o.valid_counter }

go_on-IsCompleted :
    (row : ℕ) (p : Parsed) (from : Output) (os : List (ℕ × Parsed)) (r : Output × Ending)
    → IsCompleted (note row p (counted_plan from)) os r
    → IsCompleted from ((row, p) ∷ os) (go_on row p (counted_plan from) r)
unfolding note go_on
go_on-IsCompleted row crashed from os r h =
    (refl, sym (append-nil from.written), omega arith, omega arith)
go_on-IsCompleted row unparsed from os r (c, w, v, f) = (c, w, omega arith, omega arith)
go_on-IsCompleted row without_joins from os r (c, w, v, f) = (c, w, omega arith, f)
go_on-IsCompleted row (with_joins out) from os r (c, w, v, f) = (
  c,
  w
      ∙ append_assoc from.written (entry from.newline row out)
          (separated (codes ",\n") (entries os) ++ closing (ending_of os))
      ∙ ap (λ t. from.written ++ t)
          (sym (
            append_assoc (entry from.newline row out) (separated (codes ",\n") (entries os))
              (closing (ending_of os)))),
  omega arith,
  f,
)

module _ (parsers : Parsers) (json : Json) (jumps depth column : ℕ) where
  process_plan-IsCompleted :
      (row : ℕ) (plan : Option Text) (from : Output) (os : List (ℕ × Parsed))
      (rest : Output → Output × Ending)
      → ((o : Output) → IsCompleted o os (rest o))
      → IsCompleted from
          (outcome parsers json jumps depth column row plan ++ os)
          (process_plan parsers json jumps depth column row plan from rest)
  unfolding process_plan
  process_plan-IsCompleted row none from os rest h = h from
  process_plan-IsCompleted row (some plan) from os rest h =
      let p = parse_query_plan parsers json jumps depth plan in
      go_on-IsCompleted row p from os (rest (note row p (counted_plan from)))
        (h (note row p (counted_plan from)))

  process_records-IsCompleted :
      (row : ℕ) (records : List (List Text)) (from : Output)
      → IsCompleted from
          (outcomes parsers json jumps depth column row records)
          (process_records parsers json jumps depth column row (map (λ r. some r) records) from)
  unfolding process_records
  process_records-IsCompleted row [] from = (refl, refl, omega arith, omega arith)
  process_records-IsCompleted row (fields ∷ records) from =
      process_plan-IsCompleted row (plan_of parsers json jumps depth column fields) from
        (outcomes parsers json jumps depth column (suc row) records)
        (process_records parsers json jumps depth column (suc row) (map (λ r. some r) records))
        (process_records-IsCompleted (suc row) records)

  abbrev pub first_row : Bool → ℕ
  first_row true = 2
  first_row false = 1

  abbrev pub with_header : Bool → List Text → List (Option (List Text)) → List (Option (List Text))
  with_header true header records = some header ∷ records
  with_header false header records = records

  -- When every record can be read, and no plan makes the program end, the file is a brace, an entry for
  -- each plan that has joins, under the number of its row and in the order of the rows, with commas in
  -- between only, and a brace. Each record with a plan counts as valid, and each that cannot be parsed or
  -- coded as a failure. The rows are counted from one, the header included. A plan of which the parsing
  -- calls a nil interface or goes deeper than the bounds ends the program there: what is written and
  -- counted is what came before, and no brace closes the file.
  pub process_file-IsCompleted :
      (has_header : Bool) (header : List Text) (records : List (List Text))
      → (r : Output × Ending) × (process_file parsers json jumps depth column has_header
            (with_header has_header header (map (λ r. some r) records))
          ≡ some r)
        × IsCompleted opened
            (outcomes parsers json jumps depth column (first_row has_header) records)
            r
  unfolding process_file
  process_file-IsCompleted true header records =
      (_, refl, process_records-IsCompleted 2 records opened)
  process_file-IsCompleted false header records =
      (_, refl, process_records-IsCompleted 1 records opened)
