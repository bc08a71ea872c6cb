-- ===== src/Examples/SaveRuns.antt =====
-- Runs of the command `save`.
use pbench.Prelude.{ℕ, ◌≡◌, refl, true, false, none, some, [], ◌∷◌, ◌++◌, codes}
use pbench.Prelude.Int.{pos}
use pbench.Save.Idents.{read_name, qualified_name, qualified_name-read}
use pbench.Save.Summary.{ColumnStats, TableSummary, Session, query_table_summary}
use pbench.Save.Summary.Ends.{IsSome, query_table_summary-IsSome}

qualified_name-read_example :
    read_name (qualified_name (codes "hive") (codes "a\".\"b") [] ++ codes " x")
    ≡ some (codes "hive", codes "a\".\"b", [], codes " x")
qualified_name-read_example =
    qualified_name-read (codes "hive") (codes "a\".\"b") [] (codes " x") refl

abbrev city : ColumnStats ℕ
city = record {
  column_name = codes "city";
  data_size = none;
  distinct_values_count = none;
  nulls_fraction = some 0;
  row_count = none;
  low_value = none;
  high_value = none;
  max_data_size = none;
  true_values_count = none;
  non_null_values_count = none;
  data_type = some (codes "varchar(10)");
  extra = none;
  precision = none;
  scale = none;
  length = none;
}

-- A server that knows the functions for sizes under their old names only, and always asks for them.
abbrev old_server : Session Unit ℕ
old_server = record {
  ask_ddl = λ q t w. (none, codes "create table", tt);
  ask_stats = λ q cs w. (none, city ∷ [], tt);
  ask_count = λ q n w. (none, some (pos 7), tt);
  ask_column = λ q c w. (
    some (record {
      connection_refused = false;
      query_error = some (codes "function max_data_size_for_stats not registered");
    }),
    c,
    tt,
  );
  to_int = λ x. pos x;
  fraction = λ x n. x;
}

abbrev cities : TableSummary ℕ
cities = record {
  name = codes "cities";
  catalog = codes "hive";
  schema = codes "s";
  ddl = [];
  column_stats = [];
  row_count = none;
}

query_table_summary-IsSome_example : IsSome (query_table_summary old_server true cities [] tt)
query_table_summary-IsSome_example = query_table_summary-IsSome old_server true cities [] tt
