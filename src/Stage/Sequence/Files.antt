-- ===== src/Stage/Sequence/Files.antt =====
-- What `runQueryFile` of stage/stage.go leaves of a stage.
use pbench.Prelude.{◌≡◌, refl, Option, none, some, List, Text, Bool-cases, inl, inr}
use pbench.Stage.Config.{Stage}
use pbench.Stage.Queries.{Outside, Run, aborts}
use pbench.Stage.Sequence.{Sources, run_statements, run_query_file, file_alias, file_statements}

-- A stage with the inline queries and files of another.
abbrev pub Same : Stage → Stage → Type 0
Same s t = (t.queries ≡ s.queries) × (t.query_files ≡ s.query_files)

module _ (o : Outside) (f : Sources o.World) where
  open o use {World}

  run_statements-Same :
      (s : Stage) (file alias : Text) (queries : Option (List Text)) (r : Run World)
      → Same s (run_statements o f s file alias none queries r).2
  unfolding run_statements
  run_statements-Same s file alias none r = elim (Bool-cases (aborts s)) [
    | inl e ↦ rw e (refl, refl)
    | inr e ↦ rw e (refl, refl)
  ]
  run_statements-Same s file alias (some queries) r = (refl, refl)

  pub run_query_file-Same :
      (s : Stage) (file alias : Text) (r : Run World)
      → Same s (run_query_file o f s file none (some alias) r).2
  unfolding run_query_file
  run_query_file-Same s file alias r =
      run_statements-Same s file (file_alias o f s file (some alias))
        (file_statements (f.read_file file r.world).0)
        (record r { world = (f.read_file file r.world).1 })
