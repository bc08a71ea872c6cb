-- ===== src/Ddl.antt =====
-- cmd/genddl/main.go: the schemas and tables for which DDL is generated. Reading the definitions and
-- executing the templates is not modelled.
pub mod Columns
pub mod Names
pub mod Tables
use mathlib.Core.List.{filter}
use pbench.Prelude.Atoi.{atoi}
use pbench.Prelude.Int.{ℤ, pos, negsuc, leb_ℤ}
use pbench.Prelude.{
  ℕ, zero, suc, ◌+◌, ◌-◌, ◌*◌, ◌%◌, ◌^◌, Bool, true, false, not, ◌&&◌, ◌||◌, Option, none, some,
  List, [], ◌∷◌, ◌++◌, Text, codes, Map, lookup, insert, text_eq, if◌then◌else◌, ◌==◌, ltb,
}

pub record Column : Type 0 where
  pub name : Text
  pub type_name : Option Text
  pub partition_key : Option Bool
  pub bucket_key : Option Bool
  pub is_varchar : Bool

pub record Table : Type 0 where
  pub name : Text
  pub partitioned : Bool
  pub partitioned_min_scale : ℤ
  pub columns : List Column
  pub last_column : Option Column

pub record RegisterTable : Type 0 where
  pub table_name : Text
  pub external_location : Text

pub record Schema : Type 0 where
  pub scale_factor : Text
  pub file_format : Text
  pub iceberg : Bool
  pub compression_method : Text
  pub partitioned : Bool
  pub workload : Text
  pub workload_definition : Text
  pub schema_name : Text
  pub location_name : Text
  pub uncompressed_name : Text
  pub iceberg_location_name : Text
  pub part_iceberg_name : Text
  pub register_tables : List RegisterTable
  pub tables : Map Table
  pub insert_tables : Map Table
  pub session_variables : Map Text

cons_text : ℕ → Option Text → Option Text
cons_text c none = none
cons_text c (some t) = some (c ∷ t)

-- What stands in front of the first parenthesis, if there is one.
before_paren : Text → Option Text
unfolding cons_text
before_paren [] = none
before_paren (c ∷ s) =
    let rest = cons_text c (before_paren s) in if c == b'(' then some [] else rest

is_varchar_type : Option Text → Bool
unfolding before_paren
is_varchar_type none = false
is_varchar_type (some t) = elim (before_paren t) [
  | none ↦ false
  | some base ↦ text_eq base (codes "VARCHAR")
]

mark_varchar : List Column → List Column
unfolding is_varchar_type
mark_varchar [] = []
mark_varchar (c ∷ cs) = record c { is_varchar = is_varchar_type c.type_name } ∷ mark_varchar cs

-- `initIsVarchar`
pub init_is_varchar : Table → Table
unfolding mark_varchar
init_is_varchar t = record t { columns = mark_varchar t.columns }

pub is_partition_column : Column → Bool
is_partition_column c = elim c.partition_key [ none ↦ false | some b ↦ b ]

-- The loop of `reorderColumns`: the columns that are no partition keys, and those that are.
pub split_columns : List Column → List Column × List Column
unfolding is_partition_column
split_columns [] = ([], [])
split_columns (c ∷ cs) =
    let (others, keys) = split_columns cs in
    if is_partition_column c then (others, c ∷ keys) else (c ∷ others, keys)

abbrev pub is_nil {ℓ} : {A : Type ℓ} → List A → Bool
is_nil [] = true
is_nil (x ∷ xs) = false

-- `reorderColumns`
pub reorder_columns : Schema → Table → Table
unfolding split_columns
reorder_columns s t =
    let (others, keys) = split_columns t.columns in
    if is_nil t.columns || not s.partitioned || not t.partitioned
    then t
    else if is_nil keys
    then t
    else record t { columns = others ++ keys }

-- `toHyphen`: the first underscore becomes a hyphen.
pub to_hyphen : Text → Text
to_hyphen [] = []
to_hyphen (c ∷ s) = let rest = to_hyphen s in if c == b'_' then b'-' ∷ s else c ∷ rest

pub suffix : Bool → Text → Text → Text
suffix true t f = t
suffix false t f = f

-- `setNames`
pub set_names : Schema → Schema
unfolding to_hyphen suffix
set_names s =
    let iceberg = suffix s.iceberg (codes "_iceberg") (codes "_hive") in
    let partitioned = suffix s.partitioned (codes "_partitioned") [] in
    let compression = suffix (text_eq s.compression_method (codes "zstd")) (codes "_zstd") [] in
    let uncompressed =
      s.workload
      ++ (codes "_sf"
          ++ (s.scale_factor ++ (codes "_" ++ (s.file_format ++ (partitioned ++ iceberg))))) in
    let location =
      s.workload ++ (codes "-sf" ++ (s.scale_factor ++ (codes "-" ++ s.file_format))) in
    record s {
      uncompressed_name = uncompressed;
      schema_name = uncompressed ++ compression;
      location_name =
          location ++ (to_hyphen partitioned ++ (to_hyphen iceberg ++ to_hyphen compression));
      iceberg_location_name = location ++ codes "-iceberg";
      part_iceberg_name = location ++ (to_hyphen partitioned ++ codes "-iceberg");
    }

set_codec : Bool → Text → Map Text → Map Text
set_codec iceberg method m =
    let key = suffix iceberg (codes "iceberg.compression_codec") (codes "hive.compression_codec") in
    if text_eq method (codes "uncompressed")
    then insert key (codes "NONE") m
    else if text_eq method (codes "zstd")
    then insert key (codes "ZSTD") m
    else m

-- `setSessionVars`
pub set_session_vars : Schema → Schema
unfolding set_codec suffix
set_session_vars s =
    let m = insert (codes "query_max_execution_time") (codes "12h") s.session_variables in
    let m' = insert (codes "query_max_run_time") (codes "12h") m in
    record s { session_variables = set_codec s.iceberg s.compression_method m' }

default_text : Text → Text → Text
default_text [] d = d
default_text (c ∷ s) d = c ∷ s

-- The base schema with its default names.
pub with_workload : Schema → Schema
unfolding default_text
with_workload base = record base {
  workload = default_text base.workload (codes "tpcds");
  workload_definition = default_text base.workload_definition (codes "tpc-ds");
}

named : Schema → Schema
unfolding set_names
named s = if is_nil s.schema_name || is_nil s.location_name then set_names s else s

-- One round of the loop over `combinations`.
pub variant : Schema → Bool × Bool → Schema
unfolding named set_session_vars
variant base (iceberg, partitioned) = set_session_vars (
    named (record base {
      iceberg = iceberg;
      partitioned = partitioned;
      register_tables = [];
      tables = [];
      insert_tables = [];
    }))

-- `loadSchemas`, of the base schema that was read.
pub load_schemas : Schema → List Schema
unfolding variant with_workload
load_schemas base =
    let b = with_workload base in
    variant b (true, false)
    ∷ variant b (true, true)
    ∷ variant b (false, false)
    ∷ variant b (false, true)
    ∷ []

-- `num * 1000`, a signed 64-bit integer.
thousand_fold : ℤ → ℤ
thousand_fold (pos n) =
    let w = (n * 1000) % 2 ^ 64 in if ltb w (2 ^ 63) then pos w else negsuc (2 ^ 64 - 1 - w)
thousand_fold (negsuc n) =
    let w = (2 ^ 64 - (suc n * 1000) % 2 ^ 64) % 2 ^ 64 in
    if ltb w (2 ^ 63) then pos w else negsuc (2 ^ 64 - 1 - w)

-- The text without a last `k`, if it ends in one.
cut_k : Text → Option Text
unfolding cons_text
cut_k [] = none
cut_k (c ∷ []) = if c == b'k' then some [] else none
cut_k (c ∷ d ∷ s) = cons_text c (cut_k (d ∷ s))

or_zero : Option ℤ → ℤ
or_zero none = pos 0
or_zero (some n) = n

thousands : Option ℤ → ℤ
thousands none = pos 0
thousands (some n) = thousand_fold n

-- `intScaleFactor`
pub int_scale_factor : Schema → ℤ
unfolding cut_k thousands or_zero thousand_fold
int_scale_factor s = elim (cut_k s.scale_factor) [
  | none ↦ or_zero (atoi s.scale_factor)
  | some digits ↦ thousands (atoi digits)
]

-- `isPartitioned`
pub is_partitioned : Table → ℤ → Bool
is_partitioned t sf =
    if leb_ℤ t.partitioned_min_scale (pos 0)
    then t.partitioned
    else leb_ℤ t.partitioned_min_scale sf

-- `isRegisterTable`
pub is_register_table : Table → Schema → Bool
is_register_table t s = if s.iceberg && s.partitioned then not t.partitioned else false

-- `isInsertTable`
pub is_insert_table : Table → Schema → Bool
is_insert_table t s = if s.partitioned then t.partitioned else true

pub last_of : List Column → Option Column
last_of [] = none
last_of (c ∷ []) = some c
last_of (c ∷ d ∷ cs) = last_of (d ∷ cs)

-- A table as it was read, with its varchar columns marked and its partitioning decided.
pub prepared_table : ℤ → Table → Table
unfolding init_is_varchar is_partitioned
prepared_table sf t =
    let u = init_is_varchar t in if is_partitioned u sf then record u { partitioned = true } else u

-- `tbl.LastColumn = tbl.Columns[len(tbl.Columns)-1]`: `none` is the panic of a table without columns.
note_last : Table → Option Column → Option Table
note_last t none = none
note_last t (some c) = some (record t { last_column = some c })

with_last : Table → Option Table
unfolding last_of note_last
with_last t = note_last t (last_of t.columns)

inserted : Schema → Table → Schema
unfolding is_insert_table
inserted s t =
    if is_insert_table t s then record s { insert_tables = insert t.name t s.insert_tables } else s

created : Schema → Option Table → Option Schema
unfolding inserted
created s none = none
created s (some t) = some (inserted (record s { tables = insert t.name t s.tables }) t)

registered : Text → Schema → Table → Schema
unfolding inserted
registered external_location s t =
    inserted
      (record s {
        register_tables =
            s.register_tables
            ++ record { table_name = t.name; external_location = external_location } ∷ [];
      })
      t

-- One round of the loop of `generateSchemaFromDef`, of a table that was read.
pub define_table : Text → Schema → Table → Option Schema
unfolding prepared_table is_register_table registered created with_last reorder_columns
    int_scale_factor
define_table external_location s t =
    let u = prepared_table (int_scale_factor s) t in
    if is_register_table u s
    then some (registered external_location s u)
    else created s (with_last (reorder_columns s u))

define_next : Option Schema → (Schema → Option Schema) → Option Schema
define_next none rest = none
define_next (some s) rest = rest s

-- The loop.
pub define_tables : Text → List Table → Schema → Option Schema
unfolding define_table define_next
define_tables external_location [] s = some s
define_tables external_location (t ∷ ts) s =
    define_next (define_table external_location s t) (define_tables external_location ts)
