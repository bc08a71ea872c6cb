-- ===== src/Stage/Results/Recording.antt =====
-- What has been recorded when `Run` of stage/stage.go returns.
use pbench.Prelude.{
  ℕ, suc, ◌+◌, ◌≡◌, refl, sym, ap, ◌∙◌, Bool, true, false, Option, List, [], ◌∷◌, ◌++◌, map,
  append_assoc, append-nil, arith, if◌then◌else◌, ◌≤◌, ◌⊎◌, inl, inr, All, Bool-cases, none, some,
  ltb, subst,
}
use pbench.Stage.Queries.{QueryResult}
use pbench.Stage.Results.{
  RunRecorder, Arrival, result, signal, Main, collect, drain, latest, conclude, run_loop, later,
  MysqlRunRecorder, has_failed, mismatches, add_if, record_query,
}

-- The results among what arrives.
abbrev pub results_of : {A : Type 0} → List (Arrival A) → List A
results_of [] = []
results_of (result r ∷ arrivals) = r ∷ results_of arrivals
results_of (signal ∷ arrivals) = results_of arrivals

abbrev pub fold : {A R : Type 0} → (A → R → R) → List A → R → R
fold f [] r = r
fold f (x ∷ xs) r = fold f xs (f x r)

map-fold :
    {A R : Type 0} (f : A → R → R) (xs : List A) (x : A) (rs : List R)
    → map (fold f xs) (map (f x) rs) ≡ map (fold f (x ∷ xs)) rs
map-fold f xs x [] = refl
map-fold f xs x (r ∷ rs) = ap (λ ts. fold f xs (f x r) ∷ ts) (map-fold f xs x rs)

map_id : {R : Type 0} (rs : List R) → rs ≡ map (λ r. r) rs
map_id [] = refl
map_id (r ∷ rs) = ap (λ ts. r ∷ ts) (map_id rs)

module _ {A : Type 0} (api : RunRecorder A) (end_time : A → Option ℕ) where
  -- Each recorder has seen each of the results, in order.
  abbrev Seen : Main api end_time → List A → Main api end_time → Type 0
  Seen m rs m' =
      (m'.results ≡ m.results ++ rs)
      × (m'.recorders ≡ map (fold api.record_query rs) m.recorders)
      × (m'.run_finish_time ≡ m.run_finish_time)

  drain_lem : (rs : List A) (m : Main api end_time) → Seen m rs (drain api end_time rs m)
  unfolding drain collect
  drain_lem [] m = (sym (append-nil m.results), map_id m.recorders, refl)
  drain_lem (r ∷ rs) m =
      let (a, b, c) = drain_lem rs (collect api end_time r m) in
      (a ∙ append_assoc m.results (r ∷ []) rs, b ∙ map-fold api.record_query rs r m.recorders, c)

  abbrev pub AtMost : ℕ → Option ℕ → Type 0
  AtMost time none = Unit
  AtMost time (some t) = t ≤ time

  abbrev pub IsEndOf : ℕ → List A → Type 0
  IsEndOf time [] = ⊥
  IsEndOf time (r ∷ rs) = (end_time r ≡ some time) ⊎ IsEndOf time rs

  -- `time` is the maximum of `before` and the end times.
  abbrev pub IsLatest : ℕ → List A → ℕ → Type 0
  IsLatest before rs time =
      (before ≤ time) × All (λ r. AtMost time (end_time r)) rs × ((time ≡ before) ⊎ IsEndOf time rs)

  later_lem :
      (before : ℕ) (o : Option ℕ)
      → (before ≤ later api end_time before o)
        × AtMost (later api end_time before o) o
        × ((later api end_time before o ≡ before) ⊎ (o ≡ some (later api end_time before o)))
  unfolding later
  later_lem before none = (omega arith, tt, inl refl)
  later_lem before (some t) = elim (Bool-cases (ltb before t)) [
    | inl e ↦ rw e (ground arith, omega arith, inr refl)
    | inr e ↦ rw e (omega arith, ground arith, inl refl)
  ]

  AtMost-trans : (a b : ℕ) (o : Option ℕ) → a ≤ b → AtMost a o → AtMost b o
  AtMost-trans a b none h k = tt
  AtMost-trans a b (some t) h k = omega arith

  latest-IsLatest : (before : ℕ) (rs : List A) → IsLatest before rs (latest api end_time before rs)
  unfolding latest
  latest-IsLatest before [] = (omega arith, tt, inl refl)
  latest-IsLatest before (r ∷ rs) =
      let next = later api end_time before (end_time r) in
      let (a, b, c) = later_lem before (end_time r) in
      let (a', b', c') = latest-IsLatest next rs in
      let time = latest api end_time next rs in
      (omega arith, (AtMost-trans next time (end_time r) a' b, b'), from next time c c')
    where
      from :
          (next time : ℕ)
          → (next ≡ before) ⊎ (end_time r ≡ some next)
          → (time ≡ next) ⊎ IsEndOf time rs
          → (time ≡ before) ⊎ IsEndOf time (r ∷ rs)
      from next time c (inr e) = inr (inr e)
      from next time (inl d) (inl e) = inl (e ∙ d)
      from next time (inr d) (inl e) = inr (inl (d ∙ ap some (sym e)))

  finished_at :
      (arrivals : List (Arrival A)) (buffered : List A) (m : Main api end_time)
      → ((run_loop api end_time arrivals buffered m).results
          ≡ m.results ++ (results_of arrivals ++ buffered))
        × ((run_loop api end_time arrivals buffered m).recorders
            ≡ map
                (api.record_run (m.results ++ (results_of arrivals ++ buffered)))
                (map (fold api.record_query (results_of arrivals ++ buffered)) m.recorders))
        × ((run_loop api end_time arrivals buffered m).run_finish_time
            ≡ latest api end_time m.run_finish_time
                (m.results ++ (results_of arrivals ++ buffered)))
  unfolding run_loop conclude collect
  finished_at [] buffered m =
      let (a, b, c) = drain_lem buffered m in
      (a, λ i. map (api.record_run (a i)) (b i), λ i. latest api end_time (c i) (a i))
  finished_at (result r ∷ arrivals) buffered m =
      let (a, b, c) = finished_at arrivals buffered (collect api end_time r m) in
      let all = append_assoc m.results (r ∷ []) (results_of arrivals ++ buffered) in
      (
        a ∙ all,
        b ∙ (λ i.
            map (api.record_run (all i))
              (map-fold api.record_query (results_of arrivals ++ buffered) r m.recorders i)),
        c ∙ ap (latest api end_time m.run_finish_time) all,
      )
  finished_at (signal ∷ arrivals) buffered m =
      finished_at arrivals buffered (record m { cancelled = true })

  -- When `Run` returns, all results that arrived and all that were still buffered have been collected,
  -- in order; every recorder has recorded each of them once and then the run with all of them; and the
  -- finish time is the maximum of what it was and the end times of the results that have one.
  pub run_loop_lem :
      (arrivals : List (Arrival A)) (buffered : List A) (m : Main api end_time)
      → ((run_loop api end_time arrivals buffered m).results
          ≡ m.results ++ (results_of arrivals ++ buffered))
        × ((run_loop api end_time arrivals buffered m).recorders
            ≡ map
                (api.record_run (m.results ++ (results_of arrivals ++ buffered)))
                (map (fold api.record_query (results_of arrivals ++ buffered)) m.recorders))
        × IsLatest m.run_finish_time
            (m.results ++ (results_of arrivals ++ buffered))
            (run_loop api end_time arrivals buffered m).run_finish_time
  run_loop_lem arrivals buffered m =
      let all = m.results ++ (results_of arrivals ++ buffered) in
      let (a, b, c) = finished_at arrivals buffered m in
      (a, b, subst (IsLatest m.run_finish_time all) (sym c) (latest-IsLatest m.run_finish_time all))

abbrev pub count_of : {A : Type 0} → (A → Bool) → List A → ℕ
count_of p [] = 0
count_of p (x ∷ xs) = let rest = count_of p xs in if p x then suc rest else rest

counted : (b : Bool) (n k : ℕ) → add_if b n + k ≡ n + (if b then suc k else k)
unfolding add_if
counted true n k = omega arith
counted false n k = omega arith

-- After any sequence of results the MySQL recorder has counted those with an error, and those whose
-- row count is not the expected one, where one is expected.
pub record_query_counts :
    (rs : List QueryResult) (m : MysqlRunRecorder)
    → ((fold record_query rs m).failed ≡ m.failed + count_of has_failed rs)
      × ((fold record_query rs m).mismatch ≡ m.mismatch + count_of mismatches rs)
unfolding record_query
record_query_counts [] m = (omega arith, omega arith)
record_query_counts (r ∷ rs) m =
    let (b, c) = record_query_counts rs (record_query r m) in
    (
      b ∙ counted (has_failed r) m.failed (count_of has_failed rs),
      c ∙ counted (mismatches r) m.mismatch (count_of mismatches rs),
    )
