-- ===== src/Save/Summary.antt =====
-- `QueryTableSummary` of cmd/save/table_summary.go, and the columns of prestoapi/column_stats.go. The
-- queries with the reading of their results, and the arithmetic of float64, are parameters; the type F is
-- that of the floats, the type W a world that the queries may change.
pub mod Ends
use pbench.Prelude.{
  ℕ, zero, suc, ◌+◌, Bool, true, false, not, ◌&&◌, ◌||◌, Option, none, some, List, [], ◌∷◌, ◌++◌,
  map, Text, codes, text_eq, length, ◌==◌, if◌then◌else◌,
}
use pbench.Prelude.Int.{ℤ, pos, eq_ℤ}
use mathlib.Core.List.{reverse}
use pbench.Save.Idents.{sql_ident, qualified_name}
use pbench.Save.Errors.{Failure, Handled, handle_query_error}

pub record ColumnStats (F : Type 0) : Type 0 where
  pub column_name : Text
  pub data_size : Option F
  pub distinct_values_count : Option F
  pub nulls_fraction : Option F
  pub row_count : Option F
  pub low_value : Option Text
  pub high_value : Option Text
  pub max_data_size : Option F
  pub true_values_count : Option F
  pub non_null_values_count : Option F
  pub data_type : Option Text
  pub extra : Option Text
  pub precision : Option F
  pub scale : Option F
  pub length : Option F

pub record TableSummary (F : Type 0) : Type 0 where
  pub name : Text
  pub catalog : Text
  pub schema : Text
  pub ddl : Text
  pub column_stats : List (ColumnStats F)
  pub row_count : Option ℤ

-- What a query leaves: its error, the value that it was read into, and the world.
pub record Session (W F : Type 0) : Type 0 where
  pub ask_ddl : Text → Text → W → Option Failure × Text × W
  pub ask_stats : Text → List (ColumnStats F) → W → Option Failure × List (ColumnStats F) × W
  pub ask_count : Text → Option ℤ → W → Option Failure × Option ℤ × W
  pub ask_column : Text → ColumnStats F → W → Option Failure × ColumnStats F × W
  -- int(x), and 1 - x / float64(n)
  pub to_int : F → ℤ
  pub fraction : F → ℤ → F

one_of : Text → List Text → Bool
one_of t [] = false
one_of t (u ∷ us) = text_eq t u || one_of t us

pub is_numeric_type : Text → Bool
unfolding one_of
is_numeric_type t = one_of t (
    codes "tinyint"
    ∷ codes "smallint"
    ∷ codes "integer"
    ∷ codes "bigint"
    ∷ codes "real"
    ∷ codes "double"
    ∷ codes "decimal"
    ∷ [])

pub is_sizable : Text → Bool
unfolding one_of
is_sizable t = one_of t (
    codes "char"
    ∷ codes "varchar"
    ∷ codes "varbinary"
    ∷ codes "array"
    ∷ codes "map"
    ∷ codes "row"
    ∷ [])

-- The type without its parameters.
pub raw_data_type : Text → Text
raw_data_type [] = []
raw_data_type (c ∷ s) = let rest = raw_data_type s in if c == b'(' then [] else c ∷ rest

-- "f(column) AS name"
pub aggregate : Text → Text → Text → Text
aggregate f column name = f ++ codes "(" ++ column ++ codes ") AS " ++ name

-- The function whose name depends on the version of the server.
pub size_function : Text → Text → Text
size_function prefix name = b'"' ∷ (prefix ++ name ++ codes "_data_size_for_stats\"")

pub if_nil {ℓ} : {A : Type ℓ} → Option A → Text → List Text → List Text
if_nil none t ts = t ∷ ts
if_nil (some x) t ts = ts

module _ {F : Type 0} where
  -- The statistics of a column by its type.
  pub typed_statistics : Text → Text → Text → ColumnStats F → List Text
  unfolding is_sizable is_numeric_type aggregate size_function if_nil
  typed_statistics prefix t column c =
      let distinct = aggregate (codes "approx_distinct") column (codes "distinct_values_count") in
      if text_eq t (codes "boolean")
      then aggregate (codes "count_if") column (codes "true_values_count") ∷ []
      else if is_sizable t
      then aggregate (size_function prefix (codes "max")) column (codes "max_data_size")
        ∷ if_nil c.data_size
            (aggregate (size_function prefix (codes "sum")) column (codes "data_size"))
            (if text_eq t (codes "varchar") || text_eq t (codes "char")
              then if_nil c.distinct_values_count distinct []
              else [])
      else if is_numeric_type t || (text_eq t (codes "date") || text_eq t (codes "timestamp"))
      then if_nil c.low_value (aggregate (codes "min") column (codes "low_value")) (
          if_nil c.high_value (aggregate (codes "max") column (codes "high_value"))
            (if_nil c.distinct_values_count distinct []))
      else []

  -- The statistics to query of a column: none if its type is not known.
  pub statistics : Text → ColumnStats F → List Text
  unfolding typed_statistics raw_data_type if_nil aggregate
  statistics prefix c = elim c.data_type [
    | none ↦ []
    | some t ↦
        let column = sql_ident c.column_name in
        if_nil c.nulls_fraction (aggregate (codes "count") column (codes "non_null_values_count"))
          (typed_statistics prefix (raw_data_type t) column c)
  ]

pub comma_separated : List Text → Text
comma_separated [] = []
comma_separated (t ∷ []) = t
comma_separated (t ∷ u ∷ ts) = t ++ b',' ∷ b' ' ∷ comma_separated (u ∷ ts)

-- The outcome of one round of the loop over the columns.
pub data Turn (W F : Type 0) : Type 0 where
  aborted : Text → W → ColumnStats F → Turn W F
  moved_on : Text → W → ColumnStats F → Turn W F
  retried : Text → W → ColumnStats F → Turn W F

module _ {W F : Type 0} (s : Session W F) (table : Text) (rows : ℤ) where
  open s use {ask_column, fraction}

  pub with_fraction : Option Failure → ColumnStats F → ColumnStats F
  with_fraction (some e) c = c
  with_fraction none c = elim c.nulls_fraction [
    | some x ↦ c
    | none ↦ elim c.non_null_values_count [
      | none ↦ c
      | some n ↦ record c { nulls_fraction = some (fraction n rows) }
    ]
  ]

  pub judged : Option Failure → ColumnStats F → W → Handled → Turn W F
  judged e c w h = elim h.fatal [
    | some f ↦ aborted h.prefix w c
    | none ↦
        if h.retry
        then retried h.prefix w (with_fraction e c)
        else moved_on h.prefix w (with_fraction e c)
  ]

  pub queried : Text → Option Failure × ColumnStats F × W → Turn W F
  queried prefix (e, c, w) = judged e c w (handle_query_error e false prefix)

  pub turn_with : Text → W → ColumnStats F → List Text → Turn W F
  turn_with prefix w c [] = moved_on prefix w c
  turn_with prefix w c (t ∷ ts) =
      queried prefix
        (ask_column (codes "SELECT " ++ comma_separated (t ∷ ts) ++ codes " FROM " ++ table) c w)

  pub turn : Text → W → ColumnStats F → Turn W F
  turn prefix w c = turn_with prefix w c (statistics prefix c)

  -- The loop over the columns, those done last first; nothing if the fuel is used up.
  pub analyze_columns :
      ℕ
      → Text
      → W
      → List (ColumnStats F)
      → List (ColumnStats F)
      → Option (List (ColumnStats F) × Text × W)
  analyze_columns zero prefix w done todo = none
  analyze_columns (suc n) prefix w done [] = some (reverse done, prefix, w)
  analyze_columns (suc n) prefix w done (c ∷ cs) = elim (turn prefix w c) [
    | aborted p w' c' ↦ some (reverse done ++ c' ∷ cs, p, w')
    | moved_on p w' c' ↦ analyze_columns n p w' (c' ∷ done) cs
    | retried p w' c' ↦ analyze_columns n p w' done (c' ∷ cs)
  ]

-- A summary, the prefix and the world in the end; nothing if the fuel is used up.
abbrev pub Summarised : Type 0 → Type 0 → Type 0
Summarised W F = Option (TableSummary F × Text × W)

-- `handleQueryError` with `abortOnError`: what is done after a fatal error, and what is done otherwise.
pub stop_or {ℓ} : {A : Type ℓ} → Option Failure → A → A → A
stop_or (some f) stop next = stop
stop_or none stop next = next

pub proceed {ℓ} : {A : Type ℓ} → Option Failure → Text → (Text → A) → (Text → A) → A
proceed e prefix stop next =
    let h = handle_query_error e true prefix in stop_or h.fatal (stop h.prefix) (next h.prefix)

module _ {W F : Type 0} (s : Session W F) where
  open s use {ask_ddl, ask_stats, ask_count, to_int}

  -- The row count of the last entry without a column name that has one.
  pub find_row_count : List (ColumnStats F) → Option ℤ
  find_row_count [] = none
  find_row_count (c ∷ cs) = elim (find_row_count cs) [
    | some n ↦ some n
    | none ↦
        if text_eq c.column_name []
        then elim c.row_count [ none ↦ none | some x ↦ some (to_int x) ]
        else none
  ]

  abbrev pub table_name : TableSummary F → Text
  table_name ts = qualified_name ts.catalog ts.schema ts.name

  pub with_columns : TableSummary F → Option (List (ColumnStats F) × Text × W) → Summarised W F
  with_columns ts none = none
  with_columns ts (some (cs, p, w)) = some (record ts { column_stats = cs }, p, w)

  -- The columns, unless that is not asked for.
  pub analyze_rows : Bool → ℤ → TableSummary F → Text → W → Summarised W F
  analyze_rows true rows ts prefix w = some (ts, prefix, w)
  analyze_rows false rows ts prefix w = with_columns ts (
      analyze_columns s (table_name ts) rows (length ts.column_stats + 2) prefix w []
        ts.column_stats)

  pub analyze_counted : Bool → Option ℤ → TableSummary F → Text → W → Summarised W F
  analyze_counted analyze none ts prefix w = some (ts, prefix, w)
  analyze_counted analyze (some n) ts prefix w =
      analyze_rows (eq_ℤ n (pos 0) || not analyze) n ts prefix w

  -- From the row count on.
  pub analyze_table : Bool → TableSummary F → Text → W → Summarised W F
  analyze_table analyze ts prefix w = analyze_counted analyze ts.row_count ts prefix w

  pub count_rows : Bool → TableSummary F → Text → W → Summarised W F
  count_rows analyze ts prefix w =
      let (e, n, w') = ask_count (codes "SELECT COUNT(*) FROM " ++ table_name ts) ts.row_count w in
      let ts' = record ts { row_count = n } in
      proceed e prefix (λ p. some (ts', p, w')) (λ p. analyze_table analyze ts' p w')

  pub count_unless_known : Bool → Option ℤ → TableSummary F → Text → W → Summarised W F
  count_unless_known analyze (some n) ts prefix w = analyze_table analyze ts prefix w
  count_unless_known analyze none ts prefix w = count_rows analyze ts prefix w

  pub with_found_count : Option ℤ → TableSummary F → TableSummary F
  with_found_count none ts = ts
  with_found_count (some n) ts = record ts { row_count = some n }

  -- Once the statistics and the types of the columns are known.
  pub with_row_count : Bool → TableSummary F → Text → W → Summarised W F
  with_row_count analyze ts prefix w =
      let ts' = with_found_count (find_row_count ts.column_stats) ts in
      count_unless_known analyze ts'.row_count ts' prefix w

  pub describe : Bool → TableSummary F → Text → W → Summarised W F
  describe analyze ts prefix w =
      let (e, cs, w') = ask_stats (codes "DESCRIBE " ++ table_name ts) ts.column_stats w in
      let ts' = record ts { column_stats = cs } in
      proceed e prefix (λ p. some (ts', p, w')) (λ p. with_row_count analyze ts' p w')

  pub show_stats : Bool → TableSummary F → Text → W → Summarised W F
  show_stats analyze ts prefix w =
      let (e, cs, w') = ask_stats (codes "SHOW STATS FOR " ++ table_name ts) ts.column_stats w in
      let ts' = record ts { column_stats = cs } in
      proceed e prefix (λ p. some (ts', p, w')) (λ p. describe analyze ts' p w')

  -- `QueryTableSummary`, with `internalFunctionPrefix` before and behind it.
  pub query_table_summary : Bool → TableSummary F → Text → W → Summarised W F
  query_table_summary analyze ts prefix w =
      let (e, ddl, w') = ask_ddl (codes "SHOW CREATE TABLE " ++ table_name ts) ts.ddl w in
      let ts' = record ts { ddl = ddl } in
      proceed e prefix (λ p. some (ts', p, w')) (λ p. show_stats analyze ts' p w')
