-- ===== src/Examples/StageRuns.antt =====
-- Runs of the stages.
use pbench.Prelude.{suc, ℕ, All, ◌≡◌, refl, true, false, none, some, [], ◌∷◌, ◌++◌, arith, codes}
use pbench.Prelude.Int.{pos}
use pbench.Stage.Config.{Stage, empty_stage}
use pbench.Stage.Merge.{
  merge_all_lem, Gathers, Sets, list_fields, text_options, flag_options, count_options,
}
use pbench.Stage.Inherit.{propagate_to}
use pbench.Stage.Inherit.Ready.{IsReady, propagate_to-IsReady}
use pbench.Stage.Queries.{aborts, Outside, Run, run_queries}
use pbench.Stage.Queries.Plan.{run_queries-plan, queries_of, plan}
use pbench.Stage.Queries.Failures.{run_queries-Reports, Reports, IsHonest}

abbrev tpch : Stage
tpch = record empty_stage {
  id = codes "tpch";
  catalog = some (codes "hive");
  session_params = (codes "spill", some (codes "true")) ∷ [];
  queries = codes "select 1" ∷ [];
}

abbrev twice : Stage
twice = record empty_stage {
  id = codes "twice";
  session_params = (codes "spill", none) ∷ [];
  queries = codes "select 2" ∷ [];
  cold_runs = some 1;
  warm_runs = some 1;
  random_execution = some false;
  no_random_duplicates = some false;
  abort_on_error = some false;
  save_output = some false;
  save_column_metadata = some false;
  save_json = some false;
}

merge_all_lem_example :
    All (Gathers tpch (twice ∷ [])) list_fields
    × All (Sets tpch (twice ∷ [])) text_options
    × All (Sets tpch (twice ∷ [])) flag_options
    × All (Sets tpch (twice ∷ [])) count_options
merge_all_lem_example = merge_all_lem tpch (twice ∷ [])

twice-IsReady : IsReady twice
twice-IsReady = record {
  random_execution = tt;
  no_random_duplicates = tt;
  abort_on_error = tt;
  save_output = tt;
  save_column_metadata = tt;
  save_json = tt;
  runs = unfold pbench.Stage.Config.run_count in omega arith;
}

propagate_to-IsReady_example :
    (t : Stage) × (propagate_to twice tpch ≡ some t) × IsReady t × (t.propagated ≡ true)
propagate_to-IsReady_example = propagate_to-IsReady twice tpch twice-IsReady refl

abbrev passed_on : Stage
passed_on = record tpch { propagated = true }

-- A server on which every query fails, and scripts that exit with 3. The world counts the calls.
abbrev failing : Outside
failing = record {
  World = ℕ;
  run_script = λ script env n. (some (pos 3), suc n);
  submit = λ q n. (codes "id", some (codes "no worker"), suc n);
  open_output = λ q n. (none, suc n);
  drain = λ q n. (0, none, suc n);
  is_done = λ n. false;
}

abbrev fresh : Run ℕ
fresh = record { world = 0; exit_code = pos 0; sent = [] }

run_queries-plan_example :
    ((run_queries failing twice twice.queries none 0 fresh).0 ≡ none)
    × (queries_of (run_queries failing twice twice.queries none 0 fresh).1.sent
        ≡ [] ++ plan twice none 1 0 0 twice.queries)
run_queries-plan_example =
    run_queries-plan failing twice twice.queries none 0 fresh (unfold aborts in refl) (λ n. refl)

abbrev strict : Stage
strict = record twice { abort_on_error = some true }

failing-IsHonest : IsHonest failing
failing-IsHonest = record {
  script_code = λ script env w x. cc;
  script_done = λ script env w x. x;
  submit_done = λ q w x. x;
  output_done = λ q w x. x;
  drain_done = λ q w x. x;
}

run_queries-Reports_example :
    Reports failing fresh
      (run_queries failing strict strict.queries none 0 fresh).0
      (run_queries failing strict strict.queries none 0 fresh).1
run_queries-Reports_example =
    run_queries-Reports failing failing-IsHonest strict strict.queries none 0 fresh
