-- ===== src/Utils/Rows.antt =====
-- utils/row.go: rows and their cartesian product. A value of type `any` is a type parameter.
use pbench.Prelude.{
  ℕ, ◌+◌, ◌*◌, ◌≡◌, refl, ap, Option, none, some, List, [], ◌∷◌, ◌++◌, map, arith, Text, ◌==◌,
  if◌then◌else◌, length, length-append, length-map, All, All-append, Bool-cases, inl, inr, ==_iff,
}

pub record Row {ℓ} (V : Type ℓ) : Type ℓ where
  pub column_names : List Text
  pub values : List V

no_columns {ℓ} : {A : Type ℓ} (xs : List A) → length xs ≡ 0 → xs ≡ []
no_columns [] h = refl
no_columns (x ∷ xs) h = absurd (omega arith)

module _ {ℓ} {V : Type ℓ} where
  -- As many names as values.
  abbrev pub IsValid : Row V → Type 0
  IsValid r = length r.column_names ≡ length r.values

  -- `NewRowWithColumnCapacity`: the capacity is no part of the value.
  unfoldable pub new_row : Row V
  new_row = record { column_names = []; values = [] }

  -- `ColumnCount`; `none` is its panic.
  pub column_count : Row V → Option ℕ
  column_count r =
      if length r.column_names == length r.values then some (length r.column_names) else none

  -- `AddColumn`
  pub add_column : Text → V → Row V → Row V
  add_column name value r = record {
    column_names = r.column_names ++ name ∷ [];
    values = r.values ++ value ∷ [];
  }

  concat_rows : Row V → Row V → Row V
  concat_rows a b = record {
    column_names = a.column_names ++ b.column_names;
    values = a.values ++ b.values;
  }

  merged : Row V → Row V → Option ℕ → Option ℕ → Option (Row V)
  unfolding concat_rows new_row
  merged a b (some la) (some lb) = some (if la + lb == 0 then new_row else concat_rows a b)
  merged a b (some la) none = none
  merged a b none lb = none

  -- `MergeColumns`
  pub merge_columns : Row V → Row V → Option (Row V)
  unfolding merged column_count
  merge_columns a b = merged a b (column_count a) (column_count b)

  cons_row : Option (Row V) → Option (List (Row V)) → Option (List (Row V))
  cons_row none rows = none
  cons_row (some r) none = none
  cons_row (some r) (some rows) = some (r ∷ rows)

  multiply_row : Row V → List (Row V) → Option (List (Row V)) → Option (List (Row V))
  unfolding cons_row merge_columns
  multiply_row x [] rest = rest
  multiply_row x (y ∷ ys) rest = cons_row (merge_columns x y) (multiply_row x ys rest)

  -- `MultiplyRows`: the two loops, outer first.
  pub multiply_rows : List (Row V) → List (Row V) → Option (List (Row V))
  unfolding multiply_row
  multiply_rows [] ys = some []
  multiply_rows (x ∷ xs) ys = multiply_row x ys (multiply_rows xs ys)

  column_count-IsValid : (r : Row V) → IsValid r → column_count r ≡ some (length r.column_names)
  unfolding column_count
  column_count-IsValid r h = ground arith

  new_row-concat :
      (a b : Row V)
      → IsValid a
      → IsValid b
      → length a.column_names + length b.column_names ≡ 0
      → new_row ≡ concat_rows a b
  unfolding new_row concat_rows
  new_row-concat a b h k e =
      let an = no_columns a.column_names (omega arith) in
      let av = no_columns a.values (omega arith) in
      let bn = no_columns b.column_names (omega arith) in
      let bv = no_columns b.values (omega arith) in rw (an, av, bn, bv) refl

  -- Of valid rows the merged row is the concatenation, also where both are empty.
  merge_columns-concat :
      (a b : Row V) → IsValid a → IsValid b → merge_columns a b ≡ some (concat_rows a b)
  unfolding merge_columns merged
  merge_columns-concat a b h k =
      rw (column_count-IsValid a h, column_count-IsValid b k)
        (elim (Bool-cases (length a.column_names + length b.column_names == 0)) [
          | inl e ↦ rw e (
              ap some (
                new_row-concat a b h k
                  ((==_iff (length a.column_names + length b.column_names) 0).0 e)))
          | inr e ↦ rw e
        ])

  concat_rows-IsValid : (a b : Row V) → IsValid a → IsValid b → IsValid (concat_rows a b)
  unfolding concat_rows
  concat_rows-IsValid a b h k =
      omega (arith, length-append a.column_names b.column_names, length-append a.values b.values)

  -- The cartesian product, row by row.
  pub product : List (Row V) → List (Row V) → List (Row V)
  unfolding concat_rows
  product [] ys = []
  product (x ∷ xs) ys = map (concat_rows x) ys ++ product xs ys

  multiply_row-map :
      (x : Row V) (ys rest : List (Row V))
      → IsValid x
      → All IsValid ys
      → multiply_row x ys (some rest) ≡ some (map (concat_rows x) ys ++ rest)
  unfolding multiply_row cons_row
  multiply_row-map x [] rest h k = refl
  multiply_row-map x (y ∷ ys) rest h (k, ks) =
      rw (merge_columns-concat x y h k, multiply_row-map x ys rest h ks)

  multiply_rows-product :
      (xs ys : List (Row V))
      → All IsValid xs
      → All IsValid ys
      → multiply_rows xs ys ≡ some (product xs ys)
  unfolding multiply_rows product
  multiply_rows-product [] ys h k = refl
  multiply_rows-product (x ∷ xs) ys (h, hs) k =
      rw (multiply_rows-product xs ys hs k) (multiply_row-map x ys (product xs ys) h k)

  length-product : (xs ys : List (Row V)) → length (product xs ys) ≡ length xs * length ys
  unfolding product
  length-product [] ys = omega arith
  length-product (x ∷ xs) ys = omega (
    arith,
    length-append (map (concat_rows x) ys) (product xs ys),
    length-map (concat_rows x) ys,
    length-product xs ys,
  )

  map-IsValid :
      (x : Row V) (ys : List (Row V))
      → IsValid x
      → All IsValid ys
      → All IsValid (map (concat_rows x) ys)
  map-IsValid x [] h k = tt
  map-IsValid x (y ∷ ys) h (k, ks) = (concat_rows-IsValid x y h k, map-IsValid x ys h ks)

  product-IsValid :
      (xs ys : List (Row V)) → All IsValid xs → All IsValid ys → All IsValid (product xs ys)
  unfolding product
  product-IsValid [] ys h k = tt
  product-IsValid (x ∷ xs) ys (h, hs) k =
      All-append IsValid (map (concat_rows x) ys) (product xs ys) (map-IsValid x ys h k)
        (product-IsValid xs ys hs k)

  -- On valid rows `MultiplyRows` never panics: it returns the rows of the cartesian product, as many as
  -- the product of the two numbers, and each is valid.
  pub multiply_rows_lem :
      (xs ys : List (Row V))
      → All IsValid xs
      → All IsValid ys
      → (multiply_rows xs ys ≡ some (product xs ys))
        × (length (product xs ys) ≡ length xs * length ys)
        × All IsValid (product xs ys)
  multiply_rows_lem xs ys h k =
      (multiply_rows-product xs ys h k, length-product xs ys, product-IsValid xs ys h k)

  -- Adding a column keeps a row valid.
  pub add_column-IsValid :
      (name : Text) (v : V) (r : Row V) → IsValid r → IsValid (add_column name v r)
  unfolding add_column
  add_column-IsValid name v r h =
      omega (arith, length-append r.column_names (name ∷ []), length-append r.values (v ∷ []))
