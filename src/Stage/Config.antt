-- ===== src/Stage/Config.antt =====
-- The records of stage/stage.go, stage/query.go and stage/result.go, and the run counts.
use pbench.Prelude.{
  ℕ, ◌+◌, ◌%◌, ◌^◌, ◌<◌, ◌≡◌, Bool, false, Option, none, some, List, [], Text, Map, ltb,
  if◌then◌else◌, arith,
}
use pbench.Prelude.Int.{ℤ}

-- A `*T` that may be nil is an `Option T`. A value of `map[string]any` is nil or, by its text, a value.
-- The run counts are 64-bit words: those from 2 ^ 63 on are the negative numbers. The handles of the
-- client and of the shared states are numbers: they are only passed on here.
pub record Stage : Type 0 where
  pub id : Text
  pub description : Option Text
  pub catalog : Option Text
  pub schema : Option Text
  pub session_params : Map (Option Text)
  pub time_zone : Option Text
  pub queries : List Text
  pub query_files : List Text
  pub pre_stage_shell_scripts : List Text
  pub post_stage_shell_scripts : List Text
  pub pre_query_shell_scripts : List Text
  pub post_query_shell_scripts : List Text
  pub pre_query_cycle_shell_scripts : List Text
  pub post_query_cycle_shell_scripts : List Text
  pub expected_row_counts : Map (Option (List ℤ))
  pub random_execution : Option Bool
  pub randomly_execute_until : Option Text
  pub no_random_duplicates : Option Bool
  pub cold_runs : Option ℕ
  pub warm_runs : Option ℕ
  pub start_on_new_client : Bool
  pub abort_on_error : Option Bool
  pub save_output : Option Bool
  pub save_column_metadata : Option Bool
  pub save_json : Option Bool
  pub next_stage_paths : List Text
  pub stream_count : Option ℕ
  pub base_dir : Text
  pub states : Option ℕ
  pub client : Option ℕ
  pub expected_row_count_in_current_schema : List ℤ
  pub current_catalog : Text
  pub current_schema : Text
  pub current_time_zone : Text
  pub propagated : Bool  -- `propagateOnce`

-- The zero value of the Go struct.
abbrev pub empty_stage : Stage
empty_stage = record {
  id = [];
  description = none;
  catalog = none;
  schema = none;
  session_params = [];
  time_zone = none;
  queries = [];
  query_files = [];
  pre_stage_shell_scripts = [];
  post_stage_shell_scripts = [];
  pre_query_shell_scripts = [];
  post_query_shell_scripts = [];
  pre_query_cycle_shell_scripts = [];
  post_query_cycle_shell_scripts = [];
  expected_row_counts = [];
  random_execution = none;
  randomly_execute_until = none;
  no_random_duplicates = none;
  cold_runs = none;
  warm_runs = none;
  start_on_new_client = false;
  abort_on_error = none;
  save_output = none;
  save_column_metadata = none;
  save_json = none;
  next_stage_paths = [];
  stream_count = none;
  base_dir = [];
  states = none;
  client = none;
  expected_row_count_in_current_schema = [];
  current_catalog = [];
  current_schema = [];
  current_time_zone = [];
  propagated = false;
}

-- stage/query.go
pub record Query : Type 0 where
  pub text : Text
  pub file : Option Text
  pub index : ℕ
  pub batch_size : ℕ
  pub cold_run : Bool
  pub sequence_no : ℕ
  pub expected_row_count : ℤ

-- How often `for j := 0; j < *ColdRuns+*WarmRuns; j++` runs: the sum wraps around as a signed 64-bit
-- integer, and the loop does not run where it is zero or negative.
unfoldable pub run_count : ℕ → ℕ → ℕ
run_count cold warm = let sum = (cold + warm) % 2 ^ 64 in if ltb sum (2 ^ 63) then sum else 0

pub run_count_exact : (cold warm : ℕ) → cold + warm < 2 ^ 63 → run_count cold warm ≡ cold + warm
unfolding run_count
run_count_exact cold warm h = ground arith

module _ {ℓ} {A : Type ℓ} where
  -- `if p == nil { p = q }`
  abbrev pub or_else : Option A → Option A → Option A
  or_else (some a) q = some a
  or_else none q = q
