-- ===== src/Stage/Results.antt =====
-- The loop of `Run` in stage/stage.go that records the results, and the counters of the recorder in
-- stage/mysql_run_recorder.go. What the recorders write is not modelled.
pub mod Recording
use pbench.Prelude.{
  ℕ, suc, ◌+◌, ◌≡◌, Bool, true, false, not, ◌&&◌, Option, none, some, List, [], ◌∷◌, ◌++◌, map, ltb,
  if◌then◌else◌,
}
use pbench.Prelude.Int.{ℤ, pos, leb_ℤ, eq_ℤ}
use pbench.Stage.Queries.{QueryResult}

-- `RunRecorder`, of which a call of `RecordQuery` or `RecordRun` changes the state.
pub record RunRecorder (Result : Type 0) : Type 1 where
  pub Recorder : Type 0
  pub record_query : Result → Recorder → Recorder
  pub record_run : List Result → Recorder → Recorder

-- What the `select` of the loop receives: a result, or a signal.
pub data Arrival (Result : Type 0) : Type 0 where
  result : Result → Arrival Result
  signal : Arrival Result

module _ {Result : Type 0} (api : RunRecorder Result) (end_time : Result → Option ℕ) where
  open api use {Recorder, record_query, record_run}

  pub record Main : Type 0 where
    pub recorders : List Recorder
    pub results : List Result
    pub cancelled : Bool
    pub run_finish_time : ℕ

  -- `results = append(results, result)` and the loop over the recorders.
  pub collect : Result → Main → Main
  collect r m = record m {
    results = m.results ++ r ∷ [];
    recorders = map (record_query r) m.recorders;
  }

  -- `drainLoop`: the results that are still buffered when all goroutines have finished.
  pub drain : List Result → Main → Main
  unfolding collect
  drain [] m = m
  drain (r ∷ buffered) m = drain buffered (collect r m)

  later : ℕ → Option ℕ → ℕ
  later time none = time
  later time (some t) = if ltb time t then t else time

  -- The loop that derives `RunFinishTime`.
  pub latest : ℕ → List Result → ℕ
  unfolding later
  latest time [] = time
  latest time (r ∷ results) = latest (later time (end_time r)) results

  pub conclude : Main → Main
  unfolding latest
  conclude m = record m {
    run_finish_time = latest m.run_finish_time m.results;
    recorders = map (record_run m.results) m.recorders;
  }

  -- The loop of `Run`: what arrives until the exit latch is zero, and what is buffered then.
  pub run_loop : List (Arrival Result) → List Result → Main → Main
  unfolding drain conclude collect
  run_loop [] buffered m = conclude (drain buffered m)
  run_loop (result r ∷ arrivals) buffered m = run_loop arrivals buffered (collect r m)
  run_loop (signal ∷ arrivals) buffered m =
      run_loop arrivals buffered (record m { cancelled = true })

-- `MySQLRunRecorder` without its connection.
pub record MysqlRunRecorder : Type 0 where
  pub failed : ℕ
  pub mismatch : ℕ

unfoldable pub has_failed : QueryResult → Bool
has_failed r = elim r.query_error [ none ↦ false | some e ↦ true ]

unfoldable pub mismatches : QueryResult → Bool
mismatches r =
    leb_ℤ (pos 0) r.query.expected_row_count
    && not (eq_ℤ r.query.expected_row_count (pos r.row_count))

add_if : Bool → ℕ → ℕ
add_if true n = suc n
add_if false n = n

-- `MySQLRunRecorder.RecordQuery`
pub record_query : QueryResult → MysqlRunRecorder → MysqlRunRecorder
unfolding add_if has_failed mismatches
record_query r m = record {
  failed = add_if (has_failed r) m.failed;
  mismatch = add_if (mismatches r) m.mismatch;
}

abbrev pub mysql : RunRecorder QueryResult
mysql = record {
  Recorder = MysqlRunRecorder;
  record_query = record_query;
  record_run = λ results m. m;
}
