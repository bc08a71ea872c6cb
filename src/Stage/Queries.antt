-- ===== src/Stage/Queries.antt =====
-- `runQueries`, `runQuery` and `runShellScripts` of stage/stage.go and stage/stage_utils.go, as
-- functions on an explicit state. The shell, the Presto server and the cancellation of the context are
-- parameters; the files that a run writes and its log are not modelled.
pub mod Plan
pub mod Failures
use pbench.Prelude.{
  ℕ, zero, suc, ◌+◌, ◌<◌, ◌≡◌, ◌≢◌, Bool, true, false, ◌||◌, Option, none, some, List, [], ◌∷◌,
  ◌++◌, Text, codes, itoa, ltb, if◌then◌else◌, get_elem?, length,
}
use pbench.Prelude.Int.{ℤ, pos, negsuc, eq_ℤ}
use pbench.Stage.Config.{Stage, Query, run_count}

pub data RunError : Type 0 where
  cancelled : RunError
  script_failed : ℤ → RunError
  query_failed : Text → RunError
  joined : RunError → RunError → RunError
  file_failed : Text → RunError
  until_missing : RunError
  until_invalid : Text → RunError

pub record QueryResult : Type 0 where
  pub query : Query
  pub query_id : Text
  pub row_count : ℕ
  pub query_error : Option RunError

-- What a run asks of the outside: the exit code of a script that failed (every script can be started: the
-- code panics on one that cannot, which is not modelled), the id and the failure of a submission (`Client.Query`), the failure to open the output file, the rows and the failure of a drain
-- (`Drain`), and whether the context is done. Each call may change the world.
pub record Outside : Type 1 where
  pub World : Type 0
  pub run_script : Text → List Text → World → Option ℤ × World
  pub submit : Query → World → Text × Option Text × World
  pub open_output : Query → World → Option Text × World
  pub drain : Query → World → ℕ × Option Text × World
  pub is_done : World → Bool

-- The state of a run: the world, the exit code of the program, and the results that were sent on
-- `resultChan`.
pub record Run (W : Type 0) : Type 0 where
  pub world : W
  pub exit_code : ℤ
  pub sent : List QueryResult

-- `exitCode.CompareAndSwap(0, code)`
pub set_exit_code : {W : Type 0} → ℤ → Run W → Run W
set_exit_code code r = record r {
  exit_code = if eq_ℤ r.exit_code (pos 0) then code else r.exit_code;
}

-- `errors.Join`
pub join_errors : Option RunError → Option RunError → Option RunError
join_errors none e = e
join_errors (some d) none = some d
join_errors (some d) (some e) = some (joined d e)

-- `*s.AbortOnError` and the run counts, which `setDefaults` has set.
unfoldable pub aborts : Stage → Bool
aborts s = elim s.abort_on_error [ none ↦ false | some b ↦ b ]

saves_output : Stage → Bool
saves_output s = elim s.save_output [ none ↦ false | some b ↦ b ]

pub number : Option ℕ → ℕ
number none = 0
number (some n) = n

-- `queryCycleEnv`
pub query_cycle_env : Option Text → ℕ → List Text
query_cycle_env none index = (codes "PBENCH_QUERY_INDEX=" ++ itoa index) ∷ []
query_cycle_env (some file) index =
    (codes "PBENCH_QUERY_INDEX=" ++ itoa index) ∷ (codes "PBENCH_QUERY_FILE=" ++ file) ∷ []

format_bool : Bool → Text
format_bool true = codes "true"
format_bool false = codes "false"

variable : Text → Option Text → List Text
variable name none = []
variable name (some value) = (name ++ value) ∷ []

-- `queryEnv`; behind a query its id is given, and its error, if there is one.
pub query_env : Query → Option Text → Option Text → List Text
unfolding query_cycle_env format_bool variable
query_env q id failure =
    query_cycle_env q.file q.index
    ++ (codes "PBENCH_QUERY_SEQ=" ++ itoa q.sequence_no)
      ∷ (codes "PBENCH_QUERY_COLD_RUN=" ++ format_bool q.cold_run)
      ∷ (variable (codes "PBENCH_QUERY_ID=") id ++ variable (codes "PBENCH_QUERY_ERROR=") failure)

-- `query.ExpectedRowCount`: -1 where no count is given.
pub expected_at : List ℤ → ℕ → ℤ
expected_at counts i = elim (get_elem? counts i) [ none ↦ negsuc 0 | some n ↦ n ]

-- The query of run `j` of the text at `i`; `j < *s.ColdRuns` never holds of a negative count.
pub query_at : Stage → Text → Option Text → ℕ → ℕ → ℕ → ℕ → Query
unfolding expected_at
query_at s text file batch_size start i j = record {
  text = text;
  file = file;
  index = i;
  batch_size = batch_size;
  cold_run = ltb j (run_count (number s.cold_runs) 0);
  sequence_no = j;
  expected_row_count = expected_at s.expected_row_count_in_current_schema (start + i);
}

module _ (o : Outside) where
  open o use {World, run_script, submit, open_output, drain, is_done}

  -- What a script's exit leads to: an abort, or the rest of the scripts.
  script_done :
      Stage
      → Option ℤ
      → Run World
      → (Run World → Option RunError × Run World)
      → Option RunError × Run World
  script_done s none r rest = rest r
  script_done s (some code) r rest =
      if aborts s || is_done r.world
      then (some (script_failed code), set_exit_code code r)
      else rest r

  -- `runShellScripts`
  pub run_shell_scripts : Stage → List Text → List Text → Run World → Option RunError × Run World
  unfolding script_done
  run_shell_scripts s [] env r = (none, r)
  run_shell_scripts s (script ∷ scripts) env r =
      let (code, w) = run_script script env r.world in
      script_done s code (record r { world = w }) (run_shell_scripts s scripts env)

  failed_result : Query → Text → RunError → QueryResult
  failed_result q id e = record { query = q; query_id = id; row_count = 0; query_error = some e }

  -- The result of a query that was submitted is drained, and the scripts behind it run whether that
  -- failed or not.
  run_submitted : Stage → Query → Text → Run World → QueryResult × Run World
  run_submitted s q id r =
      let (rows, failure, w) = drain q r.world in
      let (post, r') =
        run_shell_scripts s s.post_query_shell_scripts (query_env q (some id) failure)
          (record r { world = w }) in
      (
        record {
          query = q;
          query_id = id;
          row_count = rows;
          query_error =
              join_errors (elim failure [ none ↦ none | some m ↦ some (query_failed m) ]) post;
        },
        r',
      )

  output_opened : Stage → Query → Text → Option Text × World → Run World → QueryResult × Run World
  unfolding failed_result run_submitted
  output_opened s q id (some m, w) r = (failed_result q id (query_failed m), record r { world = w })
  output_opened s q id (none, w) r = run_submitted s q id (record r { world = w })

  submitted : Stage → Query → Text × Option Text × World → Run World → QueryResult × Run World
  unfolding failed_result output_opened
  submitted s q (id, some m, w) r = (failed_result q id (query_failed m), record r { world = w })
  submitted s q (id, none, w) r =
      output_opened s q id (if saves_output s then open_output q w else (none, w)) r

  prepared : Stage → Query → Option RunError × Run World → QueryResult × Run World
  unfolding failed_result submitted
  prepared s q (some e, r) = (failed_result q [] e, r)
  prepared s q (none, r) = submitted s q (submit q r.world) r

  -- `runQuery`: its error is attached to the result.
  pub run_query : Stage → Query → Run World → QueryResult × Run World
  unfolding prepared failed_result
  run_query s q r =
      if is_done r.world
      then (failed_result q [] cancelled, r)
      else prepared s q (run_shell_scripts s s.pre_query_shell_scripts (query_env q none none) r)

  -- Behind a run: `break` with the error, or the next run.
  run_done :
      Stage
      → Option RunError
      → Run World
      → (Run World → Option RunError × Run World)
      → Option RunError × Run World
  run_done s none r rest = rest r
  run_done s (some e) r rest =
      if aborts s || is_done r.world then (some e, set_exit_code (pos 1) r) else rest r

  -- The loop over the runs of one query text, with the runs left.
  pub run_rounds : Stage → (ℕ → Query) → ℕ → ℕ → Run World → Option RunError × Run World
  unfolding run_done run_query
  run_rounds s query zero j r = (none, r)
  run_rounds s query (suc n) j r =
      let (result, r') = run_query s (query j) r in
      run_done s result.query_error (record r' { sent = r'.sent ++ result ∷ [] })
        (run_rounds s query n (j + 1))

  -- The end of a cycle: the scripts behind it have run, and `abortErr` comes first.
  cycle_done :
      Option RunError
      → Option RunError × Run World
      → (Run World → Option RunError × Run World)
      → Option RunError × Run World
  cycle_done (some e) (post, r) rest = (some e, r)
  cycle_done none (some e, r) rest = (some e, r)
  cycle_done none (none, r) rest = rest r

  -- A cycle whose scripts in front have run.
  cycle :
      Stage
      → (ℕ → Query)
      → List Text
      → Option RunError × Run World
      → (Run World → Option RunError × Run World)
      → Option RunError × Run World
  unfolding cycle_done
  cycle s query env (some e, r) rest = (some e, r)
  cycle s query env (none, r) rest =
      let (abort, r') =
        run_rounds s query (run_count (number s.cold_runs) (number s.warm_runs)) 0 r in
      cycle_done abort (run_shell_scripts s s.post_query_cycle_shell_scripts env r') rest

  -- `runQueries` from the text at `i` on.
  run_texts : Stage → Option Text → ℕ → ℕ → ℕ → List Text → Run World → Option RunError × Run World
  unfolding cycle
  run_texts s file batch_size start i [] r = (none, r)
  run_texts s file batch_size start i (text ∷ texts) r =
      let env = query_cycle_env file i in
      cycle s (query_at s text file batch_size start i) env
        (run_shell_scripts s s.pre_query_cycle_shell_scripts env r)
        (run_texts s file batch_size start (i + 1) texts)

  -- `runQueries`
  pub run_queries : Stage → List Text → Option Text → ℕ → Run World → Option RunError × Run World
  unfolding run_texts
  run_queries s texts file start r = run_texts s file (length texts) start 0 texts r
