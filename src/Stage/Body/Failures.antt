-- ===== src/Stage/Body/Failures.antt =====
-- What the body of a stage leaves behind when it fails (`run` of stage/stage.go).
use pbench.Prelude.{ℕ, zero, suc, ◌+◌, ◌≡◌, Bool, true, false, Option, none, some, [], Text, length}
use pbench.Stage.Config.{Stage}
use pbench.Stage.Queries.{RunError, Outside, Run, run_shell_scripts}
use pbench.Stage.Queries.Failures.{
  IsHonest, Reports, Reports-none, Reports-trans, join_errors-Reports, scripts-Reports,
}
use pbench.Stage.Sequence.{Sources}
use pbench.Stage.Sequence.Failures.{run_sequentially-Reports}
use pbench.Stage.Random.{Chance, ended, panicked, out_of_rounds}
use pbench.Stage.Files.{Disk, ok, expand_query_file_dirs}
use pbench.Stage.Body.{
  runs_randomly, has_streams, Work, worked, in_streams, from_sequence, run_mode, run_work,
  post_stage, after_expansion, after_pre_stage, run_stage,
}

-- The stage ends, and its error stands in the exit code, or the context is done.
abbrev pub EndReports : (o : Outside) → Run o.World → Work o.World → Type 0
EndReports o before (worked (ended e s r)) = Reports o before e r
EndReports o before (worked panicked) = ⊥
EndReports o before (worked out_of_rounds) = ⊥
EndReports o before (in_streams s r) = ⊥

module _ (o : Outside) (f : Sources o.World) (chance : Chance o.World) (disk : Disk)
    (rounds skip : ℕ) (honest : IsHonest o)
    (read_done : (file : Text) (w : o.World)
      → o.is_done w ≡ true
      → o.is_done (f.read_file file w).1 ≡ true) where
  open o use {World}

  run_mode-Reports :
      (b : Bool) (s : Stage) (r : Run World)
      → b ≡ false
      → EndReports o r (worked (run_mode o f chance disk rounds skip b s r))
  unfolding run_mode from_sequence
  run_mode-Reports true s r h = cc
  run_mode-Reports false s r h = run_sequentially-Reports o f honest read_done s r

  run_work-Reports :
      (n : ℕ) (s : Stage) (r : Run World)
      → has_streams s ≡ false
      → runs_randomly s ≡ false
      → EndReports o r (run_work o f chance disk rounds skip n s r)
  unfolding run_work
  run_work-Reports zero s r one random = Reports-none o r
  run_work-Reports (suc n) s r one random = rw one (run_mode-Reports (runs_randomly s) s r random)

  post_stage-Reports :
      (before : Run World) (x : Work World)
      → EndReports o before x
      → EndReports o before (post_stage o f chance disk rounds skip x)
  unfolding post_stage
  post_stage-Reports before (worked (ended e s r)) h =
      let (post, r') = run_shell_scripts o s s.post_stage_shell_scripts [] r in
      join_errors-Reports o before r r' e post h
        (scripts-Reports o honest s s.post_stage_shell_scripts [] r)
  post_stage-Reports before (worked panicked) h = elim h [ ]
  post_stage-Reports before (worked out_of_rounds) h = elim h [ ]
  post_stage-Reports before (in_streams _ _) h = elim h [ ]

  EndReports-trans :
      (before middle : Run World) (e : Option RunError) (x : Work World)
      → Reports o before e middle
      → EndReports o middle x
      → EndReports o before x
  EndReports-trans before middle e (worked (ended e' s r)) h k =
      Reports-trans o e' before middle r h.0 k
  EndReports-trans before middle e (worked panicked) h k = elim k [ ]
  EndReports-trans before middle e (worked out_of_rounds) h k = elim k [ ]
  EndReports-trans before middle e (in_streams _ _) h k = elim k [ ]

  after_pre_stage-Reports :
      (before : Run World) (s s' : Stage) (x : Option RunError × Run World)
      → expand_query_file_dirs disk s ≡ ok s'
      → has_streams s' ≡ false
      → runs_randomly s' ≡ false
      → Reports o before x.0 x.1
      → EndReports o before (after_pre_stage o f chance disk rounds skip s x)
  unfolding after_pre_stage after_expansion
  after_pre_stage-Reports before s s' (some e, r) expanded one random h = h
  after_pre_stage-Reports before s s' (none, r) expanded one random h = rw expanded (
      let n = length s'.queries + length s'.query_files in
      let work = run_work o f chance disk rounds skip n s' r in
      EndReports-trans before r none (post_stage o f chance disk rounds skip work) h
        (post_stage-Reports r work (run_work-Reports n s' r one random)))

  -- A stage whose query files and directories can be expanded, that has one stream and does not run
  -- randomly, and whose scripts can be started: it comes to its end. When the scripts in front of its
  -- queries, the queries, its files or the scripts behind them end it with an error, the exit code is
  -- other than zero or the context is done; and an exit code that was set before stays. A script that
  -- exits with code zero fails only when the context is done, and a context that is done stays so.
  pub run_stage-Reports :
      (s s' : Stage) (r : Run World)
      → expand_query_file_dirs disk s ≡ ok s'
      → has_streams s' ≡ false
      → runs_randomly s' ≡ false
      → EndReports o r (run_stage o f chance disk rounds skip s r)
  unfolding run_stage
  run_stage-Reports s s' r expanded one random =
      after_pre_stage-Reports r s s' (run_shell_scripts o s s.pre_stage_shell_scripts [] r) expanded
        one random (scripts-Reports o honest s s.pre_stage_shell_scripts [] r)
