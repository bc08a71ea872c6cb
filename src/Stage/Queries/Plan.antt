-- ===== src/Stage/Queries/Plan.antt =====
-- Which queries a batch executes (`runQueries` of stage/stage.go).
use pbench.Prelude.{
  ℕ, zero, suc, ◌+◌, ◌≡◌, refl, sym, ◌∙◌, ap, false, Option, none, some, List, [], ◌∷◌, ◌++◌, arith,
  Text, length, append_assoc, append-nil,
}
use pbench.Stage.Config.{Stage, Query, run_count}
use pbench.Stage.Queries.{
  RunError, QueryResult, Outside, Run, set_exit_code, aborts, number, query_at, query_cycle_env,
  run_shell_scripts, run_query, run_done, run_rounds, cycle_done, cycle, run_texts, run_queries,
  run_submitted, output_opened, submitted, query_env, prepared,
}

-- The runs of one query text, from run `j` on.
pub rounds : (ℕ → Query) → ℕ → ℕ → List Query
rounds query zero j = []
rounds query (suc n) j = query j ∷ rounds query n (j + 1)

-- All queries of a batch: each text as often as the run counts say, in order.
pub plan : Stage → Option Text → ℕ → ℕ → ℕ → List Text → List Query
unfolding rounds
plan s file batch_size start i [] = []
plan s file batch_size start i (text ∷ texts) =
    rounds (query_at s text file batch_size start i)
      (run_count (number s.cold_runs) (number s.warm_runs)) 0
    ++ plan s file batch_size start (i + 1) texts

abbrev pub queries_of : List QueryResult → List Query
queries_of [] = []
queries_of (result ∷ results) = result.query ∷ queries_of results

queries_of-append :
    (xs ys : List QueryResult) → queries_of (xs ++ ys) ≡ queries_of xs ++ queries_of ys
queries_of-append [] ys = refl
queries_of-append (x ∷ xs) ys = ap (λ qs. x.query ∷ qs) (queries_of-append xs ys)

module _ (o : Outside) where
  open o use {World, is_done}

  -- Scripts send no result.
  sent-run_shell_scripts :
      (s : Stage) (scripts env : List Text) (r : Run World)
      → (run_shell_scripts o s scripts env r).1.sent ≡ r.sent
  unfolding run_shell_scripts set_exit_code
  sent-run_shell_scripts s [] env r = refl
  sent-run_shell_scripts s (script ∷ scripts) env r = ground (
    arith,
    sent-run_shell_scripts s scripts env (record r { world = (o.run_script script env r.world).1 }),
  )

  run_submitted_lem :
      (s : Stage) (q : Query) (id : Text) (r : Run World)
      → ((run_submitted o s q id r).0.query ≡ q) × ((run_submitted o s q id r).1.sent ≡ r.sent)
  unfolding run_submitted
  run_submitted_lem s q id r = (refl, sent-run_shell_scripts s s.post_query_shell_scripts _ _)

  output_opened_lem :
      (s : Stage) (q : Query) (id : Text) (a : Option Text × World) (r : Run World)
      → ((output_opened o s q id a r).0.query ≡ q) × ((output_opened o s q id a r).1.sent ≡ r.sent)
  unfolding output_opened
  output_opened_lem s q id (some m, w) r = (refl, refl)
  output_opened_lem s q id (none, w) r = run_submitted_lem s q id (record r { world = w })

  submitted_lem :
      (s : Stage) (q : Query) (a : Text × Option Text × World) (r : Run World)
      → ((submitted o s q a r).0.query ≡ q) × ((submitted o s q a r).1.sent ≡ r.sent)
  unfolding submitted
  submitted_lem s q (id, some m, w) r = (refl, refl)
  submitted_lem s q (id, none, w) r = output_opened_lem s q id _ r

  prepared_lem :
      (s : Stage) (q : Query) (a : Option RunError × Run World)
      → ((prepared o s q a).0.query ≡ q) × ((prepared o s q a).1.sent ≡ a.1.sent)
  unfolding prepared
  prepared_lem s q (some e, r) = (refl, refl)
  prepared_lem s q (none, r) = submitted_lem s q (o.submit q r.world) r

  -- A query has a result of its own, and sends none.
  run_query_lem :
      (s : Stage) (q : Query) (r : Run World)
      → ((run_query o s q r).0.query ≡ q) × ((run_query o s q r).1.sent ≡ r.sent)
  unfolding run_query
  run_query_lem s q r =
      let before = run_shell_scripts o s s.pre_query_shell_scripts (query_env q none none) r in
      ground (
        arith,
        prepared_lem s q before,
        sent-run_shell_scripts s s.pre_query_shell_scripts (query_env q none none) r,
      )

  -- Nothing makes this run stop early.
  abbrev pub NeverStops : Stage → Type 0
  NeverStops s = (aborts s ≡ false) × ((w : World) → is_done w ≡ false)

  scripts_go_on :
      (s : Stage) (scripts env : List Text) (r : Run World)
      → NeverStops s
      → (run_shell_scripts o s scripts env r).0 ≡ none
  unfolding run_shell_scripts
  scripts_go_on s [] env r h = refl
  scripts_go_on s (script ∷ scripts) env r h =
      let w = (o.run_script script env r.world).1 in
      ground (arith, h.0, h.1 w, scripts_go_on s scripts env (record r { world = w }) h)

  run_done_goes_on :
      (s : Stage) (e : Option RunError) (r : Run World)
      (rest : Run World → Option RunError × Run World)
      → NeverStops s
      → run_done o s e r rest ≡ rest r
  unfolding run_done
  run_done_goes_on s none r rest h = refl
  run_done_goes_on s (some e) r rest h = rw (h.0, h.1 r.world)

  -- The list of queries that were sent, after one more result.
  sent_one :
      (s : Stage) (q : Query) (r : Run World)
      → queries_of ((run_query o s q r).1.sent ++ (run_query o s q r).0 ∷ [])
        ≡ queries_of r.sent ++ q ∷ []
  sent_one s q r =
      let (same, sent) = run_query_lem s q r in
      queries_of-append (run_query o s q r).1.sent ((run_query o s q r).0 ∷ [])
      ∙ (λ i. queries_of (sent i) ++ same i ∷ [])

  rounds_lem :
      (s : Stage) (query : ℕ → Query) (n j : ℕ) (r : Run World)
      → NeverStops s
      → ((run_rounds o s query n j r).0 ≡ none)
        × (queries_of (run_rounds o s query n j r).1.sent ≡ queries_of r.sent ++ rounds query n j)
  unfolding run_rounds rounds
  rounds_lem s query zero j r h = (refl, sym (append-nil _))
  rounds_lem s query (suc n) j r h =
      let (result, r') = run_query o s (query j) r in
      let r'' : Run World = record r' { sent = r'.sent ++ result ∷ [] } in
      let (none', sent) = rounds_lem s query n (j + 1) r'' h in
      let next = run_done_goes_on s result.query_error r'' (run_rounds o s query n (j + 1)) h in
      (
        ap (λ a. a.0) next ∙ none',
        ap (λ a. queries_of a.1.sent) next
            ∙ sent
            ∙ ap (λ qs. qs ++ rounds query n (j + 1)) (sent_one s (query j) r)
            ∙ append_assoc _ (query j ∷ []) _,
      )

  cycle_done_goes_on :
      (abort : Option RunError) (a : Option RunError × Run World)
      (rest : Run World → Option RunError × Run World)
      → abort ≡ none
      → a.0 ≡ none
      → cycle_done o abort a rest ≡ rest a.1
  unfolding cycle_done
  cycle_done_goes_on none (none, r) rest h k = refl
  cycle_done_goes_on none (some e, r) rest h k = absurd (cc)
  cycle_done_goes_on (some e) a rest h k = absurd (cc)

  -- The runs of a text.
  abbrev all_rounds : Stage → (ℕ → Query) → Run World → Option RunError × Run World
  all_rounds s query r =
      run_rounds o s query (run_count (number s.cold_runs) (number s.warm_runs)) 0 r

  cycle_goes_on :
      (s : Stage) (query : ℕ → Query) (env : List Text) (a : Option RunError × Run World)
      (rest : Run World → Option RunError × Run World)
      → NeverStops s
      → a.0 ≡ none
      → cycle o s query env a rest
        ≡ rest
            (run_shell_scripts o s s.post_query_cycle_shell_scripts env
              (all_rounds s query a.1).1).1
  unfolding cycle
  cycle_goes_on s query env (some e, r) rest h k = absurd (cc)
  cycle_goes_on s query env (none, r) rest h k =
      cycle_done_goes_on _ _ rest
        (rounds_lem s query (run_count (number s.cold_runs) (number s.warm_runs)) 0 r h).0
        (scripts_go_on s s.post_query_cycle_shell_scripts env (all_rounds s query r).1 h)

  texts_lem :
      (s : Stage) (file : Option Text) (batch_size start i : ℕ) (texts : List Text) (r : Run World)
      → NeverStops s
      → ((run_texts o s file batch_size start i texts r).0 ≡ none)
        × (queries_of (run_texts o s file batch_size start i texts r).1.sent
            ≡ queries_of r.sent ++ plan s file batch_size start i texts)
  unfolding run_texts plan
  texts_lem s file batch_size start i [] r h = (refl, sym (append-nil _))
  texts_lem s file batch_size start i (text ∷ texts) r h =
      let env = query_cycle_env file i in
      let query = query_at s text file batch_size start i in
      let pre = run_shell_scripts o s s.pre_query_cycle_shell_scripts env r in
      let runs = (all_rounds s query pre.1).1 in
      let post = (run_shell_scripts o s s.post_query_cycle_shell_scripts env runs).1 in
      let next =
        cycle_goes_on s query env pre (run_texts o s file batch_size start (i + 1) texts) h
          (scripts_go_on s s.pre_query_cycle_shell_scripts env r h) in
      let (none', sent) = texts_lem s file batch_size start (i + 1) texts post h in
      let n = run_count (number s.cold_runs) (number s.warm_runs) in
      (
        ap (λ a. a.0) next ∙ none',
        ap (λ a. queries_of a.1.sent) next
            ∙ sent
            ∙ ap (λ xs. queries_of xs ++ plan s file batch_size start (i + 1) texts)
                (sent-run_shell_scripts s s.post_query_cycle_shell_scripts env runs)
            ∙ ap (λ qs. qs ++ plan s file batch_size start (i + 1) texts)
                ((rounds_lem s query n 0 pre.1 h).1
                  ∙ ap (λ xs. queries_of xs ++ rounds query n 0)
                      (sent-run_shell_scripts s s.pre_query_cycle_shell_scripts env r))
            ∙ append_assoc (queries_of r.sent) (rounds query n 0)
                (plan s file batch_size start (i + 1) texts),
      )

  -- With abort_on_error off and no cancellation, every query of the batch is executed, as often as the
  -- run counts say, in order and with one result each, whatever fails; the batch ends without an error.
  pub run_queries-plan :
      (s : Stage) (texts : List Text) (file : Option Text) (start : ℕ) (r : Run World)
      → aborts s ≡ false
      → ((w : World) → is_done w ≡ false)
      → ((run_queries o s texts file start r).0 ≡ none)
        × (queries_of (run_queries o s texts file start r).1.sent
            ≡ queries_of r.sent ++ plan s file (length texts) start 0 texts)
  unfolding run_queries
  run_queries-plan s texts file start r a d = texts_lem s file (length texts) start 0 texts r (a, d)
