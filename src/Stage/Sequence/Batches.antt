-- ===== src/Stage/Sequence/Batches.antt =====
-- Which queries a stage executes in sequence (`runSequentially` of stage/stage.go).
use pbench.Prelude.{
  ℕ, ◌+◌, ◌≡◌, refl, sym, ap, ◌∙◌, false, Option, none, some, List, [], ◌∷◌, ◌++◌, Text, length,
  append_assoc, append-nil,
}
use pbench.Stage.Config.{Stage, Query}
use pbench.Stage.Queries.{RunError, Outside, Run, aborts, run_queries}
use pbench.Stage.Queries.Plan.{plan, queries_of, run_queries-plan}
use pbench.Stage.Sequence.{
  Sources, start_index, move_index, file_alias, run_statements, run_query_file, after_file,
  run_files, after_queries, expected_counts, run_sequentially, file_statements,
}

module _ (o : Outside) (f : Sources o.World) (contents : Text → List Text)
    (readable : (file : Text) (w : o.World)
      → file_statements (f.read_file file w).0 ≡ some (contents file))
    (endless : (w : o.World) → o.is_done w ≡ false) where
  open o use {World}

  -- The queries of the files, where the first expects its row counts from `start` on.
  pub files_plan : Stage → ℕ → List Text → List Query
  files_plan s start [] = []
  files_plan s start (file ∷ files) =
      plan s (some (file_alias o f s file none)) (length (contents file)) start 0 (contents file)
      ++ files_plan s (start + length (contents file)) files

  abbrev FileDone :
      Stage → Text → ℕ → Run World → Option RunError × Option ℕ × Stage × Run World → Type 0
  FileDone s file start r a =
      (a.0 ≡ none)
      × (a.1 ≡ some (start + length (contents file)))
      × (a.2 ≡ s)
      × (queries_of a.3.sent
          ≡ queries_of r.sent
            ++ plan s (some (file_alias o f s file none)) (length (contents file)) start 0
                (contents file))

  run_statements-plan :
      (s : Stage) (file : Text) (start : ℕ) (queries : Option (List Text)) (r : Run World)
      → aborts s ≡ false
      → queries ≡ some (contents file)
      → FileDone s file start r
          (run_statements o f s file (file_alias o f s file none) (some start) queries r)
  unfolding run_statements move_index start_index
  run_statements-plan s file start none r a e = absurd (cc e)
  run_statements-plan s file start (some queries) r a e =
      let same : queries ≡ contents file = cc e in
      let (err, sent) =
        run_queries-plan o s queries (some (file_alias o f s file none)) start r a endless in
      (
        err,
        ap (λ q. some (start + length q)) same,
        refl,
        sent
            ∙ ap
                (λ q.
                  queries_of r.sent
                  ++ plan s (some (file_alias o f s file none)) (length q) start 0 q)
                same,
      )

  run_query_file-plan :
      (s : Stage) (file : Text) (start : ℕ) (r : Run World)
      → aborts s ≡ false
      → FileDone s file start r (run_query_file o f s file (some start) none r)
  unfolding run_query_file
  run_query_file-plan s file start r a =
      run_statements-plan s file start (file_statements (f.read_file file r.world).0)
        (record r { world = (f.read_file file r.world).1 }) a (readable file r.world)

  after_file_goes_on :
      (s : Stage) (start : ℕ) (a : Option RunError × Option ℕ × Stage × Run World)
      (rest : Stage → Option ℕ → Run World → Option RunError × Stage × Run World)
      → a.0 ≡ none
      → a.1 ≡ some start
      → a.2 ≡ s
      → after_file o f a rest ≡ rest s (some start) a.3
  unfolding after_file
  after_file_goes_on s start (some e, i, t, r) rest h k l = absurd (cc h)
  after_file_goes_on s start (none, i, t, r) rest h k l = rw (k, l) refl

  run_files-plan :
      (files : List Text) (s : Stage) (start : ℕ) (r : Run World)
      → aborts s ≡ false
      → ((run_files o f files s (some start) r).0 ≡ none)
        × (queries_of (run_files o f files s (some start) r).2.sent
            ≡ queries_of r.sent ++ files_plan s start files)
  unfolding run_files files_plan
  run_files-plan [] s start r a = (refl, sym (append-nil _))
  run_files-plan (file ∷ files) s start r a =
      let done = run_query_file o f s file (some start) none r in
      let (err, index, same, sent) = run_query_file-plan s file start r a in
      let next = start + length (contents file) in
      let goes_on = after_file_goes_on s next done (run_files o f files) err index same in
      let (err', sent') = run_files-plan files s next done.3 a in
      (
        ap (λ b. b.0) goes_on ∙ err',
        ap (λ b. queries_of b.2.sent) goes_on
            ∙ sent'
            ∙ ap (λ qs. qs ++ files_plan s next files) sent
            ∙ append_assoc (queries_of r.sent)
                (plan s (some (file_alias o f s file none)) (length (contents file)) start 0
                  (contents file))
                (files_plan s next files),
      )

  -- The stage with the row counts of the current schema.
  abbrev pub matched : Stage → Stage
  matched s = record s { expected_row_count_in_current_schema = expected_counts o f s }

  after_queries_goes_on :
      (s : Stage) (a : Option RunError × Run World)
      → a.0 ≡ none
      → after_queries o f s a ≡ run_files o f s.query_files s (some (length s.queries)) a.1
  unfolding after_queries
  after_queries_goes_on s (some e, r) h = absurd (cc h)
  after_queries_goes_on s (none, r) h = refl

  -- With abort_on_error off, readable files and no cancellation, a stage executes its inline queries and
  -- then the statements of every file, in order and as often as the run counts say; the row counts that
  -- a file expects start behind those of the queries and files before it.
  pub run_sequentially-plan :
      (s : Stage) (r : Run World)
      → aborts s ≡ false
      → ((run_sequentially o f s r).0 ≡ none)
        × (queries_of (run_sequentially o f s r).2.sent
            ≡ queries_of r.sent
              ++ plan (matched s) none (length s.queries) 0 0 s.queries
              ++ files_plan (matched s) (length s.queries) s.query_files)
  unfolding run_sequentially aborts
  run_sequentially-plan s r a =
      let t = matched s in
      let batch = run_queries o t t.queries none 0 r in
      let (err, sent) = run_queries-plan o t t.queries none 0 r a endless in
      let goes_on = after_queries_goes_on t batch err in
      let (err', sent') = run_files-plan t.query_files t (length t.queries) batch.1 a in
      (
        ap (λ b. b.0) goes_on ∙ err',
        ap (λ b. queries_of b.2.sent) goes_on
            ∙ sent'
            ∙ ap (λ qs. qs ++ files_plan t (length t.queries) t.query_files) sent,
      )
