-- ===== src/Examples/DdlRuns.antt =====
-- Schemas and tables of a small workload.
use pbench.Prelude.{true, false, none, some, [], ◌∷◌, codes}
use pbench.Prelude.Int.{pos}
use pbench.Ddl.{Column, Table, Schema}

abbrev base : Schema
base = record {
  scale_factor = codes "1k";
  file_format = codes "parquet";
  iceberg = true;
  compression_method = codes "zstd";
  partitioned = true;
  workload = codes "tpch";
  workload_definition = codes "tpc-h";
  schema_name = [];
  location_name = [];
  uncompressed_name = [];
  iceberg_location_name = [];
  part_iceberg_name = [];
  register_tables = [];
  tables = [];
  insert_tables = [];
  session_variables = [];
}

abbrev date_column : Column
date_column = record {
  name = codes "day";
  type_name = some (codes "DATE");
  partition_key = some true;
  bucket_key = none;
  is_varchar = false;
}

abbrev name_column : Column
name_column = record {
  name = codes "name";
  type_name = some (codes "VARCHAR(10)");
  partition_key = none;
  bucket_key = none;
  is_varchar = false;
}

abbrev orders : Table
orders = record {
  name = codes "orders";
  partitioned = true;
  partitioned_min_scale = pos 0;
  columns = date_column ∷ name_column ∷ [];
  last_column = none;
}

abbrev nation : Table
nation = record orders { name = codes "nation"; partitioned = false }
