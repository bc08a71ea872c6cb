-- ===== src/Stage/Queries/Failures.antt =====
-- What a batch that stops early leaves behind (`runQueries` of stage/stage.go).
use pbench.Prelude.{
  ℕ, zero, suc, ◌+◌, ◌≡◌, ◌≢◌, refl, sym, ◌∙◌, ap, ◌||◌, Option, none, some, List, [], ◌∷◌, ◌++◌,
  arith, Text, length, Bool-cases, inl, inr, true, false, Bool, if◌then◌else◌, ◌⊎◌,
}
use pbench.Prelude.Int.{ℤ, pos, negsuc}
use pbench.Stage.Config.{Stage, Query, run_count}
use pbench.Stage.Queries.{
  join_errors, RunError, Outside, Run, set_exit_code, aborts, number, query_at, query_cycle_env,
  script_done, run_shell_scripts, run_query, run_done, run_rounds, cycle_done, cycle, run_texts,
  run_queries, run_submitted, output_opened, submitted, query_env, prepared, saves_output,
}

-- What `runQueries` relies on. A script that exits with code zero counts as failed only when the context
-- is done (package os/exec), and a context that is done stays so.
pub record IsHonest (o : Outside) : Type 0 where
  pub script_code :
      (script : Text) (env : List Text) (w : o.World)
      → (o.run_script script env w).0 ≡ some (pos 0)
      → o.is_done (o.run_script script env w).1 ≡ true
  pub script_done :
      (script : Text) (env : List Text) (w : o.World)
      → o.is_done w ≡ true
      → o.is_done (o.run_script script env w).1 ≡ true
  pub submit_done :
      (q : Query) (w : o.World) → o.is_done w ≡ true → o.is_done (o.submit q w).2 ≡ true
  pub output_done :
      (q : Query) (w : o.World) → o.is_done w ≡ true → o.is_done (o.open_output q w).1 ≡ true
  pub drain_done : (q : Query) (w : o.World) → o.is_done w ≡ true → o.is_done (o.drain q w).2 ≡ true

module _ (o : Outside) where
  open o use {World, is_done}

  -- The exit code of the program is set once: the first failure decides. A context that is done stays so.
  abbrev pub Keeps : Run World → Run World → Type 0
  Keeps r r' =
      (r.exit_code ≢ pos 0 → r'.exit_code ≡ r.exit_code)
      × (is_done r.world ≡ true → is_done r'.world ≡ true)

  -- The failure stands in the exit code, or the context is done.
  abbrev pub HasFailed : Run World → Type 0
  HasFailed r = (r.exit_code ≢ pos 0) ⊎ (is_done r.world ≡ true)

  -- An error that was returned is a failure that can be seen.
  abbrev pub Reports : Run World → Option RunError → Run World → Type 0
  Reports r e r' = Keeps r r' × (e ≢ none → HasFailed r')

  pub Keeps-trans : (a b c : Run World) → Keeps a b → Keeps b c → Keeps a c
  Keeps-trans a b c (h, d) (k, d') = (λ x. k (λ y. x (sym (h x) ∙ y)) ∙ h x, λ x. d' (d x))

  HasFailed-Keeps : (a b : Run World) → HasFailed a → Keeps a b → HasFailed b
  HasFailed-Keeps a b (inl x) (h, d) = inl (λ y. x (sym (h x) ∙ y))
  HasFailed-Keeps a b (inr x) (h, d) = inr (d x)

  pub Reports-none : (r : Run World) → Reports r none r
  Reports-none r = ((λ _. refl, λ d. d), λ x. absurd (x refl))

  pub Reports-trans :
      (e : Option RunError) (a b c : Run World) → Keeps a b → Reports b e c → Reports a e c
  Reports-trans e a b c h (k, f) = (Keeps-trans a b c h k, f)

  pub set_exit_code-Reports :
      (e : Option RunError) (code : ℤ) (r : Run World)
      → (code ≡ pos 0 → is_done r.world ≡ true)
      → Reports r e (set_exit_code code r)
  unfolding set_exit_code
  set_exit_code-Reports e (pos zero) r h = ((λ x. ground arith, λ d. d), λ _. inr (h refl))
  set_exit_code-Reports e (pos (suc n)) r h =
      ((λ x. ground arith, λ d. d), λ _. inl (λ x. ground arith))
  set_exit_code-Reports e (negsuc n) r h =
      ((λ x. ground arith, λ d. d), λ _. inl (λ x. ground arith))

  pub join_errors-Reports :
      (a m b : Run World) (e e' : Option RunError)
      → Reports a e m
      → Reports m e' b
      → Reports a (join_errors e e') b
  unfolding join_errors
  join_errors-Reports a m b none e' h k = Reports-trans e' a m b h.0 k
  join_errors-Reports a m b (some d) e' h k =
      (Keeps-trans a m b h.0 k.0, λ _. HasFailed-Keeps m b (h.1 (λ x. cc)) k.0)

module _ (o : Outside) (honest : IsHonest o) where
  open o use {World, is_done}

  abbrev Rest : (Run World → Option RunError × Run World) → Type 0
  Rest rest = (r : Run World) → Reports o r (rest r).0 (rest r).1

  script_done-Reports :
      (s : Stage) (code : Option ℤ) (r : Run World) (rest : Run World → Option RunError × Run World)
      → (code ≡ some (pos 0) → is_done r.world ≡ true)
      → Rest rest
      → Reports o r (script_done o s code r rest).0 (script_done o s code r rest).1
  unfolding script_done
  script_done-Reports s none r rest h k = k r
  script_done-Reports s (some code) r rest h k = elim (Bool-cases (aborts s || is_done r.world)) [
    | inl e ↦ rw e (set_exit_code-Reports o _ code r (λ x. h (ap some x)))
    | inr e ↦ rw e (k r)
  ]

  pub scripts-Reports :
      (s : Stage) (scripts env : List Text) (r : Run World)
      → Reports o r (run_shell_scripts o s scripts env r).0 (run_shell_scripts o s scripts env r).1
  unfolding run_shell_scripts
  scripts-Reports s [] env r = Reports-none o r
  scripts-Reports s (script ∷ scripts) env r =
      let r' : Run World = record r { world = (o.run_script script env r.world).1 } in
      Reports-trans o _ r r' (run_shell_scripts o s (script ∷ scripts) env r).1
        (λ _. refl, honest.script_done script env r.world)
        (script_done-Reports s _ r' _ (honest.script_code script env r.world)
          (scripts-Reports s scripts env))

  run_submitted-Keeps :
      (s : Stage) (q : Query) (id : Text) (r : Run World) → Keeps o r (run_submitted o s q id r).1
  unfolding run_submitted
  run_submitted-Keeps s q id r =
      Keeps-trans o r (record r { world = (o.drain q r.world).2 }) (run_submitted o s q id r).1
        (λ _. refl, honest.drain_done q r.world)
        (scripts-Reports s s.post_query_shell_scripts _ _).0

  output_opened-Keeps :
      (s : Stage) (q : Query) (id : Text) (a : Option Text × World) (r : Run World)
      → (is_done r.world ≡ true → is_done a.1 ≡ true)
      → Keeps o r (output_opened o s q id a r).1
  unfolding output_opened
  output_opened-Keeps s q id (some m, w) r d = (λ _. refl, d)
  output_opened-Keeps s q id (none, w) r d =
      Keeps-trans o r (record r { world = w }) (output_opened o s q id (none, w) r).1 (λ _. refl, d)
        (run_submitted-Keeps s q id (record r { world = w }))

  submitted-Keeps :
      (s : Stage) (q : Query) (a : Text × Option Text × World) (r : Run World)
      → (is_done r.world ≡ true → is_done a.2 ≡ true)
      → Keeps o r (submitted o s q a r).1
  unfolding submitted
  submitted-Keeps s q (id, some m, w) r d = (λ _. refl, d)
  submitted-Keeps s q (id, none, w) r d = opened (saves_output s)
    where
      opened :
          (b : Bool)
          → Keeps o r (output_opened o s q id (if b then o.open_output q w else (none, w)) r).1
      opened true =
          output_opened-Keeps s q id (o.open_output q w) r (λ x. honest.output_done q w (d x))
      opened false = output_opened-Keeps s q id (none, w) r d

  prepared-Keeps :
      (s : Stage) (q : Query) (a : Option RunError × Run World) → Keeps o a.1 (prepared o s q a).1
  unfolding prepared
  prepared-Keeps s q (some e, r) = (λ _. refl, λ d. d)
  prepared-Keeps s q (none, r) =
      submitted-Keeps s q (o.submit q r.world) r (honest.submit_done q r.world)

  run_query-Keeps : (s : Stage) (q : Query) (r : Run World) → Keeps o r (run_query o s q r).1
  unfolding run_query
  run_query-Keeps s q r = elim (Bool-cases (is_done r.world)) [
    | inl e ↦ rw e (λ _. refl, λ _. e)
    | inr e ↦
        let a = run_shell_scripts o s s.pre_query_shell_scripts (query_env q none none) r in
        let keeps : Keeps o r (prepared o s q a).1 =
          Keeps-trans o r a.1 (prepared o s q a).1
            (scripts-Reports s s.pre_query_shell_scripts (query_env q none none) r).0
            (prepared-Keeps s q a) in
        rw e (keeps.0, λ x. cc)
  ]

  run_done-Reports :
      (s : Stage) (e : Option RunError) (r : Run World)
      (rest : Run World → Option RunError × Run World)
      → Rest rest
      → Reports o r (run_done o s e r rest).0 (run_done o s e r rest).1
  unfolding run_done
  run_done-Reports s none r rest k = k r
  run_done-Reports s (some e) r rest k = elim (Bool-cases (aborts s || is_done r.world)) [
    | inl b ↦ rw b (set_exit_code-Reports o _ (pos 1) r (λ x. absurd (cc x)))
    | inr b ↦ rw b (k r)
  ]

  rounds-Reports : (s : Stage) (query : ℕ → Query) (n j : ℕ) → Rest (run_rounds o s query n j)
  unfolding run_rounds
  rounds-Reports s query zero j r = Reports-none o r
  rounds-Reports s query (suc n) j r =
      let (result, r') = run_query o s (query j) r in
      Reports-trans o _ r r' (run_rounds o s query (suc n) j r).1 (run_query-Keeps s (query j) r) (
        run_done-Reports s result.query_error (record r' { sent = r'.sent ++ result ∷ [] })
          (run_rounds o s query n (j + 1)) (rounds-Reports s query n (j + 1)))

  cycle_done-Reports :
      (before : Run World) (abort : Option RunError) (middle : Run World)
      (a : Option RunError × Run World) (rest : Run World → Option RunError × Run World)
      → Reports o before abort middle
      → Reports o middle a.0 a.1
      → Rest rest
      → Reports o before (cycle_done o abort a rest).0 (cycle_done o abort a rest).1
  unfolding cycle_done
  cycle_done-Reports before (some e) middle (post, r) rest h k l =
      (Keeps-trans o before middle r h.0 k.0, λ _. HasFailed-Keeps o middle r (h.1 (λ x. cc)) k.0)
  cycle_done-Reports before none middle (some e, r) rest h k l =
      (Keeps-trans o before middle r h.0 k.0, λ _. k.1 (λ x. cc))
  cycle_done-Reports before none middle (none, r) rest h k l =
      Reports-trans o (rest r).0 before r (rest r).1 (Keeps-trans o before middle r h.0 k.0) (l r)

  cycle-Reports :
      (before : Run World) (s : Stage) (query : ℕ → Query) (env : List Text)
      (a : Option RunError × Run World) (rest : Run World → Option RunError × Run World)
      → Reports o before a.0 a.1
      → Rest rest
      → Reports o before (cycle o s query env a rest).0 (cycle o s query env a rest).1
  unfolding cycle
  cycle-Reports before s query env (some e, r) rest h l = h
  cycle-Reports before s query env (none, r) rest h l =
      let n = run_count (number s.cold_runs) (number s.warm_runs) in
      let (abort, r') = run_rounds o s query n 0 r in
      Reports-trans o _ before r (cycle o s query env (none, r) rest).1 h.0 (
        cycle_done-Reports r abort r'
          (run_shell_scripts o s s.post_query_cycle_shell_scripts env r') rest
          (rounds-Reports s query n 0 r) (scripts-Reports s s.post_query_cycle_shell_scripts env r')
          l)

  texts-Reports :
      (s : Stage) (file : Option Text) (batch_size start i : ℕ) (texts : List Text)
      → Rest (run_texts o s file batch_size start i texts)
  unfolding run_texts
  texts-Reports s file batch_size start i [] r = Reports-none o r
  texts-Reports s file batch_size start i (text ∷ texts) r =
      let env = query_cycle_env file i in
      cycle-Reports r s (query_at s text file batch_size start i) env
        (run_shell_scripts o s s.pre_query_cycle_shell_scripts env r)
        (run_texts o s file batch_size start (i + 1) texts)
        (scripts-Reports s s.pre_query_cycle_shell_scripts env r)
        (texts-Reports s file batch_size start (i + 1) texts)

  -- A batch that returns an error leaves an exit code other than zero, or a context that is done; and an
  -- exit code that was set by an earlier failure is never replaced. Every script can be started; one that
  -- exits with code zero fails only when the context is done, and a context that is done stays so.
  pub run_queries-Reports :
      (s : Stage) (texts : List Text) (file : Option Text) (start : ℕ) (r : Run World)
      → Reports o r (run_queries o s texts file start r).0 (run_queries o s texts file start r).1
  unfolding run_queries
  run_queries-Reports s texts file start r = texts-Reports s file (length texts) start 0 texts r
