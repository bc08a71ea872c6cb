-- ===== src/Save/Summary/Ends.antt =====
-- That `QueryTableSummary` of cmd/save/table_summary.go returns: a column is queried again at most once in
-- all, since that sets `internalFunctionPrefix`.
use pbench.Prelude.{
  ℕ, zero, suc, ◌+◌, ◌≤◌, ◌≡◌, refl, arith, Bool, true, false, Option, none, some, List, [], ◌∷◌,
  Text, text_eq, codes, length, Bool-cases, Option-cases, inl, inr, ◌||◌, not, ◌++◌, if◌then◌else◌,
}
use pbench.Prelude.Int.{ℤ, pos, eq_ℤ}
use pbench.Save.Errors.{
  Failure, Handled, handle_query_error, handle_failure, handle_message, internal_prefix, has_suffix,
}
use pbench.Save.Summary.{
  ColumnStats, TableSummary, Session, Turn, aborted, moved_on, retried, turn, turn_with, queried,
  judged, with_fraction, analyze_columns, statistics, Summarised, proceed, with_columns,
  analyze_table, count_rows, with_row_count, describe, show_stats, query_table_summary,
  find_row_count, with_found_count, count_unless_known, analyze_counted, analyze_rows, stop_or,
  comma_separated, table_name,
}

-- A retry is possible while the prefix is empty.
abbrev budget : Text → ℕ
budget [] = 1
budget (c ∷ s) = 0

-- A retry uses up the budget, and nothing enlarges it.
abbrev Spends : Text → Bool → Text → Type 0
Spends prefix true p = suc (budget p) ≤ budget prefix
Spends prefix false p = budget p ≤ budget prefix

abbrev HandledSpends : Text → Handled → Type 0
HandledSpends prefix h = Spends prefix h.retry h.prefix

handle_message-Spends :
    (e : Failure) (message prefix : Text) → HandledSpends prefix (handle_message e message prefix)
unfolding handle_message text_eq internal_prefix
handle_message-Spends e message [] =
    elim (Bool-cases (has_suffix message (codes "does not exist"))) [
      | inl q ↦ rw q (omega arith)
      | inr q ↦
          rw q
            (elim (Bool-cases (has_suffix message (codes "data_size_for_stats not registered"))) [
              | inl q' ↦ rw q' (omega arith)
              | inr q' ↦ rw q' (omega arith)
            ])
    ]
handle_message-Spends e message (c ∷ s) =
    elim (Bool-cases (has_suffix message (codes "does not exist"))) [
      | inl q ↦ rw q (omega arith)
      | inr q ↦ rw q (omega arith)
    ]

handle_failure-Spends :
    (e : Failure) (b : Bool) (prefix : Text) → HandledSpends prefix (handle_failure e b prefix)
unfolding handle_failure
handle_failure-Spends e b prefix = elim (Bool-cases (b || e.connection_refused)) [
  | inl q ↦ rw q (omega arith)
  | inr q ↦ rw q (elim (Option-cases e.query_error) [
    | inl m ↦ rw m (omega arith)
    | inr (message, m) ↦ rw m (handle_message-Spends e message prefix)
  ])
]

handle_query_error-Spends :
    (e : Option Failure) (b : Bool) (prefix : Text)
    → HandledSpends prefix (handle_query_error e b prefix)
unfolding handle_query_error
handle_query_error-Spends none b prefix = omega arith
handle_query_error-Spends (some e) b prefix = handle_failure-Spends e b prefix

abbrev pub IsSome {ℓ} : {A : Type ℓ} → Option A → Type 0
IsSome none = ⊥
IsSome (some a) = Unit

module _ {W F : Type 0} (s : Session W F) (table : Text) (rows : ℤ) where
  abbrev TurnSpends : Text → Turn W F → Type 0
  TurnSpends prefix (aborted p w c) = Unit
  TurnSpends prefix (moved_on p w c) = budget p ≤ budget prefix
  TurnSpends prefix (retried p w c) = suc (budget p) ≤ budget prefix

  judged-Spends :
      (e : Option Failure) (c : ColumnStats F) (w : W) (h : Handled) (prefix : Text)
      → HandledSpends prefix h
      → TurnSpends prefix (judged s table rows e c w h)
  unfolding judged
  judged-Spends e c w h prefix k = elim (Option-cases h.fatal) [
    | inl q ↦ rw q (go h.retry k)
    | inr (f, q) ↦ rw q tt
  ]
    where
      go :
          (b : Bool)
          → Spends prefix b h.prefix
          → TurnSpends prefix (
              if b
              then retried h.prefix w (with_fraction s table rows e c)
              else moved_on h.prefix w (with_fraction s table rows e c))
      go true k = k
      go false k = k

  turn_with-Spends :
      (prefix : Text) (w : W) (c : ColumnStats F) (ts : List Text)
      → TurnSpends prefix (turn_with s table rows prefix w c ts)
  unfolding turn_with queried
  turn_with-Spends prefix w c [] = omega arith
  turn_with-Spends prefix w c (t ∷ ts) =
      let (e, c', w') =
        s.ask_column (codes "SELECT " ++ comma_separated (t ∷ ts) ++ codes " FROM " ++ table) c w in
      judged-Spends e c' w' (handle_query_error e false prefix) prefix
        (handle_query_error-Spends e false prefix)

  turn-Spends :
      (prefix : Text) (w : W) (c : ColumnStats F) → TurnSpends prefix (turn s table rows prefix w c)
  unfolding turn
  turn-Spends prefix w c = turn_with-Spends prefix w c (statistics prefix c)

  analyze_columns-Ends :
      (n : ℕ) (prefix : Text) (w : W) (done todo : List (ColumnStats F))
      → length todo + budget prefix + 1 ≤ n
      → IsSome (analyze_columns s table rows n prefix w done todo)
  unfolding analyze_columns
  analyze_columns-Ends zero prefix w done todo h = absurd (omega arith)
  analyze_columns-Ends (suc n) prefix w done [] h = tt
  analyze_columns-Ends (suc n) prefix w done (c ∷ cs) h =
      go (λ p w' done' todo'. analyze_columns-Ends n p w' done' todo')
        (turn s table rows prefix w c) refl (turn-Spends prefix w c)
    where
      go :
          ((p : Text) (w' : W) (done' todo' : List (ColumnStats F))
            → length todo' + budget p + 1 ≤ n
            → IsSome (analyze_columns s table rows n p w' done' todo'))
          → (t : Turn W F) → turn s table rows prefix w c ≡ t
          → TurnSpends prefix t
          → IsSome (analyze_columns s table rows (suc n) prefix w done (c ∷ cs))
      go ih (aborted p w' c') e k = rw (e, analyze_columns) tt
      go ih (moved_on p w' c') e k = rw (e, analyze_columns) (ih p w' (c' ∷ done) cs (omega arith))
      go ih (retried p w' c') e k = rw (e, analyze_columns) (ih p w' done (c' ∷ cs) (omega arith))

module _ {W F : Type 0} (s : Session W F) where
  with_columns-IsSome :
      (ts : TableSummary F) (o : Option (List (ColumnStats F) × Text × W))
      → IsSome o
      → IsSome (with_columns s ts o)
  unfolding with_columns
  with_columns-IsSome ts none h = elim h [ ]
  with_columns-IsSome ts (some (cs, p, w)) h = tt

  budget_le : (prefix : Text) → budget prefix ≤ 1
  budget_le [] = omega arith
  budget_le (c ∷ s) = omega arith

  analyze_rows-IsSome :
      (b : Bool) (n : ℤ) (ts : TableSummary F) (prefix : Text) (w : W)
      → IsSome (analyze_rows s b n ts prefix w)
  unfolding analyze_rows
  analyze_rows-IsSome true n ts prefix w = tt
  analyze_rows-IsSome false n ts prefix w =
      let fuel = length ts.column_stats + 2 in
      with_columns-IsSome ts
        (analyze_columns s (table_name s ts) n fuel prefix w [] ts.column_stats)
        (analyze_columns-Ends s (table_name s ts) n fuel prefix w [] ts.column_stats
          (omega (arith, budget_le prefix)))

  analyze_counted-IsSome :
      (b : Bool) (o : Option ℤ) (ts : TableSummary F) (prefix : Text) (w : W)
      → IsSome (analyze_counted s b o ts prefix w)
  unfolding analyze_counted
  analyze_counted-IsSome b none ts prefix w = tt
  analyze_counted-IsSome b (some n) ts prefix w =
      analyze_rows-IsSome (eq_ℤ n (pos 0) || not b) n ts prefix w

  analyze_table-IsSome :
      (b : Bool) (ts : TableSummary F) (prefix : Text) (w : W)
      → IsSome (analyze_table s b ts prefix w)
  unfolding analyze_table
  analyze_table-IsSome b ts prefix w = analyze_counted-IsSome b ts.row_count ts prefix w

  stop_or-IsSome :
      (o : Option Failure) (stop next : Summarised W F)
      → IsSome stop
      → IsSome next
      → IsSome (stop_or o stop next)
  unfolding stop_or
  stop_or-IsSome none stop next hs hn = hn
  stop_or-IsSome (some f) stop next hs hn = hs

  proceed-IsSome :
      (e : Option Failure) (prefix : Text) (stop next : Text → Summarised W F)
      → ((p : Text) → IsSome (stop p))
      → ((p : Text) → IsSome (next p))
      → IsSome (proceed e prefix stop next)
  unfolding proceed
  proceed-IsSome e prefix stop next hs hn =
      let h = handle_query_error e true prefix in
      stop_or-IsSome h.fatal (stop h.prefix) (next h.prefix) (hs h.prefix) (hn h.prefix)

  count_rows-IsSome :
      (b : Bool) (ts : TableSummary F) (prefix : Text) (w : W) → IsSome (count_rows s b ts prefix w)
  unfolding count_rows
  count_rows-IsSome b ts prefix w =
      let (e, n, w') =
        s.ask_count (codes "SELECT COUNT(*) FROM " ++ table_name s ts) ts.row_count w in
      let ts' = record ts { row_count = n } in
      proceed-IsSome e prefix (λ p. some (ts', p, w')) (λ p. analyze_table s b ts' p w') (λ p. tt)
        (λ p. analyze_table-IsSome b ts' p w')

  count_unless_known-IsSome :
      (b : Bool) (o : Option ℤ) (ts : TableSummary F) (prefix : Text) (w : W)
      → IsSome (count_unless_known s b o ts prefix w)
  unfolding count_unless_known
  count_unless_known-IsSome b none ts prefix w = count_rows-IsSome b ts prefix w
  count_unless_known-IsSome b (some n) ts prefix w = analyze_table-IsSome b ts prefix w

  with_row_count-IsSome :
      (b : Bool) (ts : TableSummary F) (prefix : Text) (w : W)
      → IsSome (with_row_count s b ts prefix w)
  unfolding with_row_count
  with_row_count-IsSome b ts prefix w =
      let ts' = with_found_count s (find_row_count s ts.column_stats) ts in
      count_unless_known-IsSome b ts'.row_count ts' prefix w

  describe-IsSome :
      (b : Bool) (ts : TableSummary F) (prefix : Text) (w : W) → IsSome (describe s b ts prefix w)
  unfolding describe
  describe-IsSome b ts prefix w =
      let (e, cs, w') = s.ask_stats (codes "DESCRIBE " ++ table_name s ts) ts.column_stats w in
      let ts' = record ts { column_stats = cs } in
      proceed-IsSome e prefix (λ p. some (ts', p, w')) (λ p. with_row_count s b ts' p w') (λ p. tt)
        (λ p. with_row_count-IsSome b ts' p w')

  show_stats-IsSome :
      (b : Bool) (ts : TableSummary F) (prefix : Text) (w : W) → IsSome (show_stats s b ts prefix w)
  unfolding show_stats
  show_stats-IsSome b ts prefix w =
      let (e, cs, w') =
        s.ask_stats (codes "SHOW STATS FOR " ++ table_name s ts) ts.column_stats w in
      let ts' = record ts { column_stats = cs } in
      proceed-IsSome e prefix (λ p. some (ts', p, w')) (λ p. describe s b ts' p w') (λ p. tt)
        (λ p. describe-IsSome b ts' p w')

  -- Whatever the server answers, `QueryTableSummary` returns, after at most one round for each column
  -- that the server lists and a single round that is tried again: the fuel of that many rounds is not
  -- used up.
  pub query_table_summary-IsSome :
      (analyze : Bool) (ts : TableSummary F) (prefix : Text) (w : W)
      → IsSome (query_table_summary s analyze ts prefix w)
  unfolding query_table_summary
  query_table_summary-IsSome b ts prefix w =
      let (e, ddl, w') = s.ask_ddl (codes "SHOW CREATE TABLE " ++ table_name s ts) ts.ddl w in
      let ts' = record ts { ddl = ddl } in
      proceed-IsSome e prefix (λ p. some (ts', p, w')) (λ p. show_stats s b ts' p w') (λ p. tt)
        (λ p. show_stats-IsSome b ts' p w')
