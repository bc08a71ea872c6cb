-- ===== src/Examples/SequenceRuns.antt =====
-- Runs of whole stages.
use pbench.Prelude.{
  ℕ, zero, suc, ◌≡◌, ◌<◌, refl, true, false, none, some, List, [], ◌∷◌, ◌++◌, arith, codes, All,
  length, trim_space, ◌≤◌,
}
use pbench.Prelude.Int.{pos}
use pbench.Prelude.Atoi.{atoi}
use pbench.Stage.Config.{Stage, empty_stage}
use pbench.Stage.Queries.{aborts, Outside, Run}
use pbench.Stage.Queries.Plan.{plan, queries_of}
use pbench.Stage.Sequence.{Sources, run_sequentially, file_statements}
use pbench.Stage.Sequence.Batches.{files_plan, matched, run_sequentially-plan}
use pbench.Stage.Files.{Disk, expand_query_file_dirs}
use pbench.Stage.Body.{run_stage, runs_randomly, has_streams}
use pbench.Stage.Queries.Failures.{IsHonest}
use pbench.Stage.Body.Failures.{EndReports, run_stage-Reports}
use pbench.Stage.Random.{Chance, run_randomly}
use pbench.Stage.Random.Ends.{IsEnded, run_randomly-IsEnded}
use pbench.Sql.Scanner.{split_queries}
use pbench.Sql.Split.{scan_sql_stmt}

abbrev server : Outside
server = record {
  World = ℕ;
  run_script = λ script env n. (some (pos 3), suc n);
  submit = λ q n. (codes "id", none, suc n);
  open_output = λ q n. (none, suc n);
  drain = λ q n. (7, none, suc n);
  is_done = λ n. false;
}

-- Every file holds one query.
abbrev disk : Sources ℕ
disk = record {
  read_file = λ file n. (some (codes "select 1;" ∷ []), suc n);
  relative = λ base file. none;
  matches = λ pattern key. none;
}

abbrev stage : Stage
stage = record empty_stage {
  id = codes "s";
  queries = codes "select 0" ∷ [];
  query_files = codes "/a.sql" ∷ codes "/b.sql" ∷ [];
  cold_runs = some 1;
  warm_runs = some 1;
  abort_on_error = some false;
  random_execution = some true;
  randomly_execute_until = some (codes "5");
  no_random_duplicates = some true;
}

abbrev fresh : Run ℕ
fresh = record { world = 0; exit_code = pos 0; sent = [] }

one_query : file_statements (some (codes "select 1;" ∷ [])) ≡ some (codes "select 1" ∷ [])
unfolding file_statements split_queries scan_sql_stmt trim_space
one_query = refl

run_sequentially-plan_example :
    ((run_sequentially server disk stage fresh).0 ≡ none)
    × (queries_of (run_sequentially server disk stage fresh).2.sent
        ≡ []
          ++ plan
              (matched server disk
                (λ file. codes "select 1" ∷ [])
                (λ file n. one_query)
                (λ n. refl)
                stage)
              none
              1
              0
              0
              stage.queries
          ++ files_plan server disk
              (λ file. codes "select 1" ∷ [])
              (λ file n. one_query)
              (λ n. refl)
              (matched server disk
                (λ file. codes "select 1" ∷ [])
                (λ file n. one_query)
                (λ n. refl)
                stage)
              1
              stage.query_files)
run_sequentially-plan_example =
    run_sequentially-plan server disk (λ file. codes "select 1" ∷ []) (λ file n. one_query)
      (λ n. refl) stage fresh (unfold aborts in refl)

-- The numbers below `n`, from the largest on.
abbrev downward : ℕ → List ℕ
downward zero = []
downward (suc n) = n ∷ downward n

abbrev chance : Chance ℕ
chance = record {
  perm = λ n w. (downward n, suc w);
  intn = λ n w. (0, suc w);
  now = λ w. (w, suc w);
  parse_duration = λ text. none;
}

downward_below : (m n : ℕ) → n ≤ m → All (λ i. i < m) (downward n)
downward_below m zero h = tt
downward_below m (suc n) h = (omega arith, downward_below m n (omega arith))

length-downward : (n : ℕ) → length (downward n) ≡ n
length-downward zero = refl
length-downward (suc n) = omega (arith, length-downward n)

run_randomly-IsEnded_example :
    IsEnded server disk chance
      (λ n w. downward_below n n (omega arith))
      (λ n w. length-downward n)
      (λ n w h. h)
      (run_randomly server disk chance 6 0 stage fresh)
run_randomly-IsEnded_example =
    run_randomly-IsEnded server disk chance (λ n w. downward_below n n (omega arith))
      (λ n w. length-downward n) (λ n w h. h) 5 6 0 (codes "5") stage fresh refl refl
      (unfold atoi in refl) (omega arith) (omega arith)

-- A stage that fails in the script behind its queries.
abbrev failing_at_end : Stage
failing_at_end = record stage {
  query_files = [];
  random_execution = some false;
  abort_on_error = some true;
  post_stage_shell_scripts = codes "exit 3" ∷ [];
}

abbrev files : Disk
files = record { stat = λ path. some false; read_dir = λ path. none }

server-IsHonest : IsHonest server
server-IsHonest = record {
  script_code = λ script env w x. cc;
  script_done = λ script env w x. x;
  submit_done = λ q w x. x;
  output_done = λ q w x. x;
  drain_done = λ q w x. x;
}

run_stage-Reports_example :
    EndReports server fresh (run_stage server disk chance files 10 0 failing_at_end fresh)
run_stage-Reports_example =
    run_stage-Reports server disk chance files 10 0 server-IsHonest (λ file w x. x) failing_at_end
      failing_at_end fresh (unfold expand_query_file_dirs in refl) (unfold has_streams in refl)
      (unfold runs_randomly in refl)
