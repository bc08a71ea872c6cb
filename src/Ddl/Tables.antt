-- ===== src/Ddl/Tables.antt =====
-- Which tables are created, registered and filled (`generateSchemaFromDef` of cmd/genddl/main.go).
use pbench.Prelude.{
  text_eq, ◌≡◌, Bool, true, not, ◌&&◌, some, List, [], ◌∷◌, ◌++◌, Text, lookup, if◌then◌else◌,
}
use mathlib.Core.List.{Perm}
use mathlib.Core.List.Perm
use pbench.Ddl.{Column, Table, Schema, reorder_columns, int_scale_factor, last_of, prepared_table}

-- A table is registered where it is not partitioned and the schema is Iceberg and partitioned.
abbrev pub is_external : Schema → Bool → Bool
is_external s partitioned = s.iceberg && s.partitioned && not partitioned

-- A table is filled where it is partitioned or the schema is not.
abbrev pub is_filled : Schema → Bool → Bool
is_filled s partitioned = if s.partitioned then partitioned else true

-- The table as it is created: its columns in order, and the last of them noted.
abbrev pub created_table : Schema → Table → Column → Table
created_table s t c = record (reorder_columns s (prepared_table (int_scale_factor s) t)) {
  last_column = some c;
}

-- What a schema holds when a table has been defined. A table is either registered, at the location that
-- is given and by its name, or created; and it is filled if it is created and takes part in the inserts.
-- Every other entry is kept.
pub record IsDefined (location : Text) (s : Schema) (t : Table) (c : Column) (s' : Schema)
    : Type 0 where
  pub last : last_of (created_table s t c).columns ≡ some c
  pub register_tables : s'.register_tables ≡ (
      if is_external s (prepared_table (int_scale_factor s) t).partitioned
      then s.register_tables
        ++ record {
          table_name = (prepared_table (int_scale_factor s) t).name;
          external_location = location;
        }
          ∷ []
      else s.register_tables)
  pub tables :
      (k : Text)
      → lookup k s'.tables ≡ (
          if is_external s (prepared_table (int_scale_factor s) t).partitioned
          then lookup k s.tables
          else if text_eq (created_table s t c).name k
          then some (created_table s t c)
          else lookup k s.tables)
  pub insert_tables :
      (k : Text)
      → lookup k s'.insert_tables ≡ (
          if is_external s (prepared_table (int_scale_factor s) t).partitioned
          then lookup k s.insert_tables
          else if is_filled s (created_table s t c).partitioned
              && text_eq (created_table s t c).name k
          then some (created_table s t c)
          else lookup k s.insert_tables)
