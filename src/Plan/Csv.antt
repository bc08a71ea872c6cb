-- ===== src/Plan/Csv.antt =====
-- `processFile` and `parseQueryPlan` of cmd/queryplan/main.go. The reader of CSV records, the coding of JSON
-- and the parsers are parameters; the column's index is not negative, and writes succeed.
pub mod Entries
use pbench.Prelude.{
  ℕ, zero, suc, ◌+◌, Bool, true, false, Option, none, some, List, [], ◌∷◌, ◌++◌, Text, codes, itoa,
  get_elem?,
}
use pbench.Plan.Tree.{PlanTree, Outcome, nil_dereference, too_deep}
use pbench.Plan.Trace.{Heap}
use pbench.Plan.Joins.{Parsers, Join, Progress, parse_joins}

-- The coding of JSON: of a plan tree that is read, and of joins, with the values behind them.
pub record Json : Type 0 where
  pub decode : Text → Option PlanTree
  pub marshal : List Join → Heap → Option Text

-- What becomes of a plan: an error, no joins, or the text of its joins; or the program ends, where a nil
-- interface is called, or where the recursion goes deeper than the bounds, as a stack overflow does.
pub data Parsed : Type 0 where
  crashed : Parsed
  unparsed : Parsed
  without_joins : Parsed
  with_joins : Text → Parsed

-- What is written, the separator in front of the next entry, and the counters.
pub record Output : Type 0 where
  pub written : Text
  pub newline : Text
  pub valid_counter : ℕ
  pub failure_counter : ℕ

-- The output behind the opening brace.
abbrev pub opened : Output
opened = record { written = codes "{\n"; newline = []; valid_counter = 0; failure_counter = 0 }

pub entry : Text → ℕ → Text → Text
entry newline row out = newline ++ codes "  \"" ++ itoa row ++ codes "\":" ++ out

pub note : ℕ → Parsed → Output → Output
note row crashed o = o
note row unparsed o = record o { failure_counter = suc o.failure_counter }
note row without_joins o = o
note row (with_joins out) o = record o {
  written = o.written ++ entry o.newline row out;
  newline = codes ",\n";
}

-- How the loop ends: at the end of the file, at a record that cannot be read, or with the program.
pub data Ending : Type 0 where
  completed : Ending
  unreadable : Ending
  aborted : Ending

pub go_on : ℕ → Parsed → Output → Output × Ending → Output × Ending
go_on row crashed o rest = (o, aborted)
go_on row p o rest = rest

-- `json.MarshalIndent`, if there are joins.
pub marshalled : Json → Outcome Progress → Parsed
marshalled j (p, some nil_dereference) = crashed
marshalled j (p, some too_deep) = crashed
marshalled j (p, some e) = unparsed
marshalled j (p, none) = elim p.joins [
  | [] ↦ without_joins
  | join ∷ joins ↦ elim (j.marshal (join ∷ joins) p.heap) [
    | none ↦ unparsed
    | some out ↦ with_joins out
  ]
]

module _ (parsers : Parsers) (json : Json) (jumps depth : ℕ) where
  -- `parseQueryPlan`, and the coding of its joins.
  pub parse_query_plan : Text → Parsed
  parse_query_plan plan = elim (json.decode plan) [
    | none ↦ unparsed
    | some tree ↦ marshalled json (parse_joins parsers jumps depth tree)
  ]

  module _ (query_plan_column : ℕ) where
    -- The plan of a record, unless it has too few columns or the plan is empty.
    pub plan_of : List Text → Option Text
    plan_of record_of = elim (get_elem? record_of query_plan_column) [
      | none ↦ none
      | some [] ↦ none
      | some (c ∷ s) ↦ some (c ∷ s)
    ]

    -- How the loop goes on behind a record.
    pub process_plan : ℕ → Option Text → Output → (Output → Output × Ending) → Output × Ending
    process_plan row none o rest = rest o
    process_plan row (some plan) o rest =
        let o' = record o { valid_counter = suc o.valid_counter } in
        go_on row (parse_query_plan plan) o' (rest (note row (parse_query_plan plan) o'))

    -- The loop over the records, of which nothing is one that cannot be read.
    pub process_records : ℕ → List (Option (List Text)) → Output → Output × Ending
    process_records row [] o = (record o { written = o.written ++ codes "\n}" }, completed)
    process_records row (none ∷ records) o = (o, unreadable)
    process_records row (some fields ∷ records) o =
        process_plan row (plan_of fields) o (process_records (suc row) records)

    -- `processFile`; nothing if the header cannot be read, which is fatal.
    pub process_file : Bool → List (Option (List Text)) → Option (Output × Ending)
    process_file false records = some (process_records 1 records opened)
    process_file true [] = none
    process_file true (none ∷ records) = none
    process_file true (some header ∷ records) = some (process_records 2 records opened)
