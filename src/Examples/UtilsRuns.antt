-- ===== src/Examples/UtilsRuns.antt =====
-- Runs of package utils.
use Prim.Native.String.{String}
use pbench.Prelude.{ℕ, refl, true, false, [], ◌∷◌, codes, List, lookup}
use pbench.Utils.Rows.{Row}
use pbench.Utils.RowsMap.{merge_rows_map, IsMerged, merge_rows_map-IsMerged}
use pbench.Utils.Flags.{PrestoFlagsArray}

abbrev cell : String → ℕ → Row ℕ
cell name value = record { column_names = codes name ∷ []; values = value ∷ [] }

abbrev xs : List (Row ℕ)
xs = cell "x" 1 ∷ cell "x" 2 ∷ []

abbrev ys : List (Row ℕ)
ys = cell "y" 3 ∷ cell "y" 4 ∷ []

merge_rows_map-IsMerged_example :
    IsMerged (merge_rows_map [] ((codes "t", xs) ∷ (codes "t", ys) ∷ []))
merge_rows_map-IsMerged_example =
    merge_rows_map-IsMerged [] ((codes "t", xs) ∷ (codes "t", ys) ∷ [])
      (λ table. unfold lookup in tt) (λ table. unfold lookup in tt)
      ((refl, (refl, tt)), ((refl, (refl, tt)), tt))

abbrev two_servers : PrestoFlagsArray
two_servers = record {
  server_url = codes "http://a" ∷ codes "http://b" ∷ [];
  is_trino = true ∷ [];
  force_https = false ∷ true ∷ true ∷ [];
  user_name = codes "ann" ∷ codes "bob" ∷ [];
  password = [];
}
