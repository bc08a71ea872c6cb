-- ===== src/Examples/SessionRuns.antt =====
-- Clients and files of a stage.
use pbench.Prelude.{ℕ, refl, some, [], ◌∷◌, Text, codes}
use pbench.Stage.Config.{Stage, empty_stage}
use pbench.Stage.Client.{ClientApi, Clients, prepare_client}
use pbench.Stage.Client.Session.{Laws, IsPrepared, prepare_client-IsPrepared}

-- A client that keeps its catalog, schema and time zone.
record Settings : Type 0 where
  catalog : Text
  schema : Text
  time_zone : Text

abbrev settings : ClientApi
settings = record {
  Client = Settings;
  get_catalog = λ c. c.catalog;
  get_schema = λ c. c.schema;
  get_time_zone = λ c. c.time_zone;
  set_catalog = λ v c. record c { catalog = v };
  set_schema = λ v c. record c { schema = v };
  set_time_zone = λ v c. record c { time_zone = v };
  session_param = λ k v c. c;
  append_client_tag = λ v c. c;
}

settings-Laws : Laws settings
settings-Laws = record {
  catalog_set = λ v c. refl;
  schema_set = λ v c. refl;
  time_zone_set = λ v c. refl;
  catalog_schema = λ v c. refl;
  catalog_time_zone = λ v c. refl;
  catalog_param = λ k v c. refl;
  catalog_tag = λ v c. refl;
  schema_time_zone = λ v c. refl;
  schema_param = λ k v c. refl;
  schema_tag = λ v c. refl;
  time_zone_tag = λ v c. refl;
}

abbrev tpch : Stage
tpch = record empty_stage {
  id = codes "tpch";
  catalog = some (codes "hive");
  client = some 0;
  query_files = codes "/q/a.sql" ∷ codes "/q/more" ∷ [];
}

abbrev clients : Clients settings
clients = record {
  held = λ h. record { catalog = codes "iceberg"; schema = []; time_zone = [] };
  next_handle = 1;
  new_client = record { catalog = []; schema = []; time_zone = [] };
}

prepare_client-IsPrepared_example :
    (h : ℕ) × IsPrepared settings settings-Laws tpch
      (prepare_client settings tpch clients).0
      (prepare_client settings tpch clients).1
      h
prepare_client-IsPrepared_example = prepare_client-IsPrepared settings settings-Laws tpch clients
