-- ===== src/Utils/RowsMap.antt =====
-- `MergeRowsMap` of utils/orm.go, with its limit.
use pbench.Prelude.{
  ℕ, ◌*◌, ◌≤◌, ◌<◌, refl, Option, none, some, List, [], ◌∷◌, arith, Text, Map, lookup, insert,
  lookup-insert, text_eq, ltb, if◌then◌else◌, length, All, Bool-cases, inl, inr, ltb→lt,
}
use pbench.Utils.Rows.{Row, IsValid, new_row, multiply_rows, product, multiply_rows_lem}

abbrev pub max_cartesian_product_size : ℕ
max_cartesian_product_size = 100_000

-- A result, the error of the limit, or the panic of an invalid row.
pub data Merged {ℓ} (A : Type ℓ) : Type ℓ where
  ok : A → Merged A
  too_large : Text → ℕ → Merged A
  panicked : Merged A

module _ {ℓ} {V : Type ℓ} where
  -- `rows1 := a[tableName]`, and a single empty row where that has none.
  pub seed : Option (List (Row V)) → List (Row V)
  seed none = new_row ∷ []
  seed (some []) = new_row ∷ []
  seed (some (r ∷ rows)) = r ∷ rows

  stored : Text → Map (List (Row V)) → Option (List (Row V)) → Merged (Map (List (Row V)))
  stored table a none = panicked
  stored table a (some rows) = ok (insert table rows a)

  merge_table :
      Text → List (Row V) → List (Row V) → Map (List (Row V)) → Merged (Map (List (Row V)))
  unfolding stored
  merge_table table rows1 rows2 a =
      let size = length rows1 * length rows2 in
      if ltb max_cartesian_product_size size
      then too_large table size
      else stored table a (multiply_rows rows1 rows2)

  next_table :
      Merged (Map (List (Row V)))
      → (Map (List (Row V)) → Merged (Map (List (Row V))))
      → Merged (Map (List (Row V)))
  next_table (ok a) rest = rest a
  next_table (too_large table size) rest = too_large table size
  next_table panicked rest = panicked

  -- `MergeRowsMap`
  pub merge_rows_map : Map (List (Row V)) → Map (List (Row V)) → Merged (Map (List (Row V)))
  unfolding merge_table next_table seed
  merge_rows_map a [] = ok a
  merge_rows_map a ((table, rows2) ∷ b) =
      next_table (merge_table table (seed (lookup table a)) rows2 a) (λ a'. merge_rows_map a' b)

  abbrev pub Holds : (List (Row V) → Type 0) → Option (List (Row V)) → Type 0
  Holds P none = Unit
  Holds P (some rows) = P rows

  -- Every row of every table is valid.
  abbrev pub IsValidMap : Map (List (Row V)) → Type 0
  IsValidMap a = (table : Text) → Holds (All IsValid) (lookup table a)

  abbrev pub AllTables : (List (Row V) → Type 0) → Map (List (Row V)) → Type 0
  AllTables P [] = Unit
  AllTables P ((table, rows) ∷ b) = P rows × AllTables P b

  seed-IsValid : (o : Option (List (Row V))) → Holds (All IsValid) o → All IsValid (seed o)
  unfolding seed new_row
  seed-IsValid none h = (refl, tt)
  seed-IsValid (some []) h = (refl, tt)
  seed-IsValid (some (r ∷ rows)) h = h

  Holds-insert :
      (P : List (Row V) → Type 0) (table : Text) (rows : List (Row V)) (a : Map (List (Row V)))
      → P rows
      → ((t : Text) → Holds P (lookup t a))
      → (t : Text) → Holds P (lookup t (insert table rows a))
  Holds-insert P table rows a h k t =
      rw (lookup-insert table t rows a)
        (elim (Bool-cases (text_eq table t)) [ inl e ↦ rw e h | inr e ↦ rw e (k t) ])

  -- The row count of a merged table stays within the limit.
  abbrev pub IsBounded : List (Row V) → Type 0
  IsBounded rows = length rows ≤ max_cartesian_product_size

  -- A result keeps validity and the limit, an error tells of a product above it, and nothing panics.
  abbrev pub IsMerged : Merged (Map (List (Row V))) → Type 0
  IsMerged (ok a) = IsValidMap a × ((table : Text) → Holds IsBounded (lookup table a))
  IsMerged (too_large table size) = max_cartesian_product_size < size
  IsMerged panicked = ⊥

  merge_table-IsMerged :
      (table : Text) (rows1 rows2 : List (Row V)) (a : Map (List (Row V)))
      → All IsValid rows1
      → All IsValid rows2
      → IsValidMap a
      → ((t : Text) → Holds IsBounded (lookup t a))
      → IsMerged (merge_table table rows1 rows2 a)
  unfolding merge_table stored
  merge_table-IsMerged table rows1 rows2 a h k v l =
      let (e, n, p) = multiply_rows_lem rows1 rows2 h k in
      elim (Bool-cases (ltb max_cartesian_product_size (length rows1 * length rows2))) [
        | inl b ↦ rw b (ltb→lt max_cartesian_product_size (length rows1 * length rows2) b)
        | inr b ↦
            rw (b, e)
              (
                Holds-insert (All IsValid) table (product rows1 rows2) a p v,
                Holds-insert IsBounded table (product rows1 rows2) a (rw n (ground arith)) l,
              )
      ]

  next_table-IsMerged :
      (m : Merged (Map (List (Row V)))) (rest : Map (List (Row V)) → Merged (Map (List (Row V))))
      → IsMerged m
      → ((a : Map (List (Row V)))
          → IsValidMap a
          → ((t : Text) → Holds IsBounded (lookup t a))
          → IsMerged (rest a))
      → IsMerged (next_table m rest)
  unfolding next_table
  next_table-IsMerged (ok a) rest (v, l) k = k a v l
  next_table-IsMerged (too_large table size) rest h k = h
  next_table-IsMerged panicked rest h k = h

  -- Merging maps of valid rows never panics. It returns a map of valid rows in which no table exceeds
  -- the limit, if none did before, or it tells of a product that does exceed it.
  pub merge_rows_map-IsMerged :
      (a b : Map (List (Row V)))
      → IsValidMap a
      → ((table : Text) → Holds IsBounded (lookup table a))
      → AllTables (All IsValid) b
      → IsMerged (merge_rows_map a b)
  unfolding merge_rows_map
  merge_rows_map-IsMerged a [] v l h = (v, l)
  merge_rows_map-IsMerged a ((table, rows2) ∷ b) v l (h, hs) =
      next_table-IsMerged (merge_table table (seed (lookup table a)) rows2 a) _
        (merge_table-IsMerged table (seed (lookup table a)) rows2 a
          (seed-IsValid (lookup table a) (v table)) h v l)
        (λ a' v' l'. merge_rows_map-IsMerged a' b v' l' hs)
