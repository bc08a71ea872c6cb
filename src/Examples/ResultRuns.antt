-- ===== src/Examples/ResultRuns.antt =====
-- Runs of the result loop.
use pbench.Prelude.{ℕ, ◌+◌, ◌≡◌, false, none, some, [], ◌∷◌, codes, Option, List}
use pbench.Prelude.Int.{pos}
use pbench.Stage.Config.{Query}
use pbench.Stage.Queries.{QueryResult, query_failed}
use pbench.Stage.Results.{
  Main, MysqlRunRecorder, Arrival, result, signal, run_loop, mysql, record_query,
}
use pbench.Stage.Results.Recording.{run_loop_lem, fold, IsLatest}

abbrev select_one : Query
select_one = record {
  text = codes "select 1";
  file = none;
  index = 0;
  batch_size = 1;
  cold_run = false;
  sequence_no = 0;
  expected_row_count = pos 1;
}

abbrev answered : QueryResult
answered = record { query = select_one; query_id = codes "q1"; row_count = 1; query_error = none }

abbrev refused : QueryResult
refused = record {
  query = select_one;
  query_id = codes "q2";
  row_count = 0;
  query_error = some (query_failed (codes "refused"));
}

abbrev end_time : QueryResult → Option ℕ
end_time r = some (5 + r.row_count)

abbrev nothing_yet : MysqlRunRecorder
nothing_yet = record { failed = 0; mismatch = 0 }

abbrev begun : Main mysql end_time
begun = record {
  recorders = nothing_yet ∷ [];
  results = [];
  cancelled = false;
  run_finish_time = 0;
}

abbrev arrivals : List (Arrival QueryResult)
arrivals = result answered ∷ signal ∷ []

run_loop_lem_example :
    ((run_loop mysql end_time arrivals (refused ∷ []) begun).results ≡ answered ∷ refused ∷ [])
    × ((run_loop mysql end_time arrivals (refused ∷ []) begun).recorders
        ≡ fold record_query (answered ∷ refused ∷ []) nothing_yet ∷ [])
    × IsLatest mysql end_time 0
        (answered ∷ refused ∷ [])
        (run_loop mysql end_time arrivals (refused ∷ []) begun).run_finish_time
run_loop_lem_example = run_loop_lem mysql end_time arrivals (refused ∷ []) begun
