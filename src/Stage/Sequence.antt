-- ===== src/Stage/Sequence.antt =====
-- `runSequentially`, `runQueryFile` and `newStreamInstance` of stage/stage.go. A stage that runs keeps
-- the row counts that it expects, so that each step also returns the stage.
pub mod Batches
pub mod Failures
pub mod Files
use pbench.Prelude.{
  ℕ, zero, suc, ◌+◌, Bool, true, false, Option, none, some, List, [], ◌∷◌, ◌++◌, Text, Map, lookup,
  codes, itoa, if◌then◌else◌, length,
}
use pbench.Prelude.Int.{ℤ, pos}
use pbench.Sql.Scanner.{ScanError, split_queries}
use pbench.Stage.Config.{Stage, empty_stage}
use pbench.Stage.Queries.{RunError, file_failed, Outside, Run, set_exit_code, aborts, run_queries}

-- What a stage asks of the file system and of package regexp: the reads of a file, or nothing if it
-- cannot be opened; a path from a base directory; and whether a pattern, if it compiles, matches.
pub record Sources (W : Type 0) : Type 0 where
  pub read_file : Text → W → Option (List Text) × W
  pub relative : Text → Text → Option Text
  pub matches : Text → Text → Option Bool

-- A nil slice has length 0.
pub counts_or_nil : Option (List ℤ) → List ℤ
counts_or_nil none = []
counts_or_nil (some counts) = counts

-- `prestoapi.SplitQueries(file)`, or nothing with an error.
unfoldable pub file_statements : Option (List Text) → Option (List Text)
file_statements none = none
file_statements (some reads) = elim (split_queries reads) [
  | none ↦ none
  | some (ts, none) ↦ some ts
  | some (ts, some e) ↦ none
]

-- `*expectedRowCountStartIndex`, which is 0 where the pointer is nil.
pub start_index : Option ℕ → ℕ
start_index none = 0
start_index (some n) = n

pub move_index : Option ℕ → ℕ → Option ℕ
move_index none n = none
move_index (some k) n = some (k + n)

module _ (o : Outside) (f : Sources o.World) where
  open o use {World}
  open f use {read_file, relative, matches}

  -- The loop over the patterns, in the order of the map's iteration: the first that matches.
  first_match : Text → Map (Option (List ℤ)) → List ℤ → List ℤ
  unfolding counts_or_nil
  first_match key [] held = held
  first_match key ((pattern, counts) ∷ m) held =
      let rest = first_match key m held in
      elim (matches pattern key) [
        | none ↦ rest
        | some false ↦ rest
        | some true ↦ counts_or_nil counts
      ]

  pick_counts :
      Text
      → Map (Option (List ℤ))
      → List ℤ
      → Option (Option (List ℤ))
      → Option (Option (List ℤ))
      → List ℤ
  unfolding first_match counts_or_nil
  pick_counts key m held (some counts) by_schema = counts_or_nil counts
  pick_counts key m held none (some counts) = counts_or_nil counts
  pick_counts key m held none none = first_match key m held

  -- The row counts expected under the current catalog and schema.
  pub expected_counts : Stage → List ℤ
  unfolding pick_counts
  expected_counts s =
      let key = s.current_catalog ++ codes "." ++ s.current_schema in
      pick_counts key s.expected_row_counts s.expected_row_count_in_current_schema
        (lookup key s.expected_row_counts) (lookup s.current_schema s.expected_row_counts)

  pub file_alias : Stage → Text → Option Text → Text
  file_alias s file (some alias) = alias
  file_alias s file none = elim (relative s.base_dir file) [ none ↦ file | some path ↦ path ]

  -- Behind the reading of the file.
  pub run_statements :
      Stage
      → Text
      → Text
      → Option ℕ
      → Option (List Text)
      → Run World
      → Option RunError × Option ℕ × Stage × Run World
  unfolding start_index move_index
  run_statements s file alias start none r =
      if aborts s
      then (some (file_failed file), start, s, set_exit_code (pos 1) r)
      else (none, start, record s { expected_row_count_in_current_schema = [] }, r)
  run_statements s file alias start (some queries) r =
      let (err, r') = run_queries o s queries (some alias) (start_index start) r in
      (err, move_index start (length queries), s, r')

  -- `runQueryFile`: the error, the start index behind it, and the stage.
  pub run_query_file :
      Stage
      → Text
      → Option ℕ
      → Option Text
      → Run World
      → Option RunError × Option ℕ × Stage × Run World
  unfolding run_statements file_alias
  run_query_file s file start alias r =
      let (reads, w) = read_file file r.world in
      run_statements s file (file_alias s file alias) start (file_statements reads)
        (record r { world = w })

  after_file :
      Option RunError × Option ℕ × Stage × Run World
      → (Stage → Option ℕ → Run World → Option RunError × Stage × Run World)
      → Option RunError × Stage × Run World
  after_file (some e, start, s, r) rest = (some e, s, r)
  after_file (none, start, s, r) rest = rest s start r

  -- The loop over `s.QueryFiles`.
  pub run_files : List Text → Stage → Option ℕ → Run World → Option RunError × Stage × Run World
  unfolding after_file run_query_file
  run_files [] s start r = (none, s, r)
  run_files (file ∷ files) s start r =
      after_file (run_query_file s file start none r) (run_files files)

  after_queries : Stage → Option RunError × Run World → Option RunError × Stage × Run World
  unfolding run_files
  after_queries s (some e, r) = (some e, s, r)
  after_queries s (none, r) = run_files s.query_files s (some (length s.queries)) r

  -- `runSequentially`: the inline queries, then the files.
  pub run_sequentially : Stage → Run World → Option RunError × Stage × Run World
  unfolding expected_counts after_queries
  run_sequentially s r =
      let s' = record s { expected_row_count_in_current_schema = expected_counts s } in
      after_queries s' (run_queries o s' s'.queries none 0 r)

-- `newStreamInstance`
unfoldable new_stream_instance : Stage → ℕ → Stage
new_stream_instance s index = record empty_stage {
  id = s.id ++ codes "_stream_" ++ itoa (suc index);
  catalog = s.catalog;
  schema = s.schema;
  session_params = s.session_params;
  time_zone = s.time_zone;
  queries = s.queries;
  query_files = s.query_files;
  expected_row_counts = s.expected_row_counts;
  random_execution = s.random_execution;
  randomly_execute_until = s.randomly_execute_until;
  no_random_duplicates = s.no_random_duplicates;
  cold_runs = s.cold_runs;
  warm_runs = s.warm_runs;
  abort_on_error = s.abort_on_error;
  save_output = s.save_output;
  save_column_metadata = s.save_column_metadata;
  save_json = s.save_json;
  pre_query_shell_scripts = s.pre_query_shell_scripts;
  post_query_shell_scripts = s.post_query_shell_scripts;
  pre_query_cycle_shell_scripts = s.pre_query_cycle_shell_scripts;
  post_query_cycle_shell_scripts = s.post_query_cycle_shell_scripts;
  base_dir = s.base_dir;
  states = s.states;
  client = s.client;
  current_catalog = s.current_catalog;
  current_schema = s.current_schema;
  current_time_zone = s.current_time_zone;
}
