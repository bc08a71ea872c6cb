-- ===== src/Stage/Sequence/Failures.antt =====
-- What a sequence of batches that stops early leaves behind (`runSequentially` of stage/stage.go).
use pbench.Prelude.{
  ℕ, ◌≡◌, refl, true, Option, none, some, List, [], ◌∷◌, Text, length, Bool-cases, inl, inr,
}
use pbench.Prelude.Int.{pos}
use pbench.Stage.Config.{Stage}
use pbench.Stage.Queries.{RunError, file_failed, Outside, Run, aborts, run_queries}
use pbench.Stage.Queries.Failures.{
  IsHonest, Reports, Reports-none, Reports-trans, set_exit_code-Reports, run_queries-Reports,
}
use pbench.Stage.Sequence.{
  Sources, start_index, file_alias, run_statements, run_query_file, after_file, run_files,
  after_queries, expected_counts, run_sequentially, file_statements,
}

module _ (o : Outside) (f : Sources o.World) (honest : IsHonest o)
    (read_done : (file : Text) (w : o.World)
      → o.is_done w ≡ true
      → o.is_done (f.read_file file w).1 ≡ true) where
  open o use {World}

  run_statements-Reports :
      (s : Stage) (file alias : Text) (start : Option ℕ) (queries : Option (List Text))
      (r : Run World)
      → Reports o r
          (run_statements o f s file alias start queries r).0
          (run_statements o f s file alias start queries r).3
  unfolding run_statements
  run_statements-Reports s file alias start none r = elim (Bool-cases (aborts s)) [
    | inl e ↦ rw e (set_exit_code-Reports o (some (file_failed file)) (pos 1) r (λ x. cc))
    | inr e ↦ rw e (Reports-none o r)
  ]
  run_statements-Reports s file alias start (some queries) r =
      run_queries-Reports o honest s queries (some alias) (start_index start) r

  run_query_file-Reports :
      (s : Stage) (file : Text) (start : Option ℕ) (alias : Option Text) (r : Run World)
      → Reports o r
          (run_query_file o f s file start alias r).0
          (run_query_file o f s file start alias r).3
  unfolding run_query_file
  run_query_file-Reports s file start alias r =
      let (reads, w) = f.read_file file r.world in
      let (e, start', s', r') =
        run_statements o f s file (file_alias o f s file alias) start (file_statements reads)
          (record r { world = w }) in
      Reports-trans o e r (record r { world = w }) r' (λ _. refl, read_done file r.world)
        (run_statements-Reports s file (file_alias o f s file alias) start (file_statements reads)
          (record r { world = w }))

  after_file-Reports :
      (before : Run World) (a : Option RunError × Option ℕ × Stage × Run World)
      (rest : Stage → Option ℕ → Run World → Option RunError × Stage × Run World)
      → Reports o before a.0 a.3
      → ((s : Stage) (start : Option ℕ) (r : Run World)
          → Reports o r (rest s start r).0 (rest s start r).2)
      → Reports o before (after_file o f a rest).0 (after_file o f a rest).2
  unfolding after_file
  after_file-Reports before (some e, start, s, r) rest h k = h
  after_file-Reports before (none, start, s, r) rest h k =
      Reports-trans o (rest s start r).0 before r (rest s start r).2 h.0 (k s start r)

  run_files-Reports :
      (files : List Text) (s : Stage) (start : Option ℕ) (r : Run World)
      → Reports o r (run_files o f files s start r).0 (run_files o f files s start r).2
  unfolding run_files
  run_files-Reports [] s start r = Reports-none o r
  run_files-Reports (file ∷ files) s start r =
      after_file-Reports r (run_query_file o f s file start none r) (run_files o f files)
        (run_query_file-Reports s file start none r) (run_files-Reports files)

  after_queries-Reports :
      (before : Run World) (s : Stage) (a : Option RunError × Run World)
      → Reports o before a.0 a.1
      → Reports o before (after_queries o f s a).0 (after_queries o f s a).2
  unfolding after_queries
  after_queries-Reports before s (some e, r) h = h
  after_queries-Reports before s (none, r) h =
      let (e, s', r') = run_files o f s.query_files s (some (length s.queries)) r in
      Reports-trans o e before r r' h.0
        (run_files-Reports s.query_files s (some (length s.queries)) r)

  -- A stage that ends its queries and files with an error, a file that cannot be read included, leaves
  -- an exit code other than zero or a context that is done, and an exit code set before is kept. Every
  -- script can be started.
  pub run_sequentially-Reports :
      (s : Stage) (r : Run World)
      → Reports o r (run_sequentially o f s r).0 (run_sequentially o f s r).2
  unfolding run_sequentially
  run_sequentially-Reports s r =
      let s' : Stage = record s { expected_row_count_in_current_schema = expected_counts o f s } in
      after_queries-Reports r s' (run_queries o s' s'.queries none 0 r)
        (run_queries-Reports o honest s' s'.queries none 0 r)
