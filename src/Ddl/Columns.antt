-- ===== src/Ddl/Columns.antt =====
-- The order of the columns (`reorderColumns` of cmd/genddl/main.go).
use mathlib.Core.List.{Perm, perm_middle}
use mathlib.Core.List.Perm
use pbench.Prelude.{
  ◌≡◌, refl, Bool, true, false, not, ◌||◌, List, [], ◌∷◌, ◌++◌, if◌then◌else◌, Bool-cases, inl, inr,
  sym, ap, ◌∙◌,
}
use pbench.Ddl.{Column, Table, Schema, is_partition_column, split_columns, is_nil, reorder_columns}

-- The columns that are partition keys, or those that are not, in order.
pub select : Bool → List Column → List Column
unfolding is_partition_column
select b [] = []
select true (c ∷ cs) = if is_partition_column c then c ∷ select true cs else select true cs
select false (c ∷ cs) = if is_partition_column c then select false cs else c ∷ select false cs

split_columns_lem : (cs : List Column) → split_columns cs ≡ (select false cs, select true cs)
unfolding split_columns select
split_columns_lem [] = refl
split_columns_lem (c ∷ cs) =
    rw (split_columns_lem cs)
      (elim (Bool-cases (is_partition_column c)) [ inl e ↦ rw e | inr e ↦ rw e ])

no_keys :
    (cs : List Column) → is_nil (select true cs) ≡ true → select false cs ++ select true cs ≡ cs
unfolding select
no_keys [] h = refl
no_keys (c ∷ cs) h = elim (Bool-cases (is_partition_column c)) [
  | inl e ↦ absurd (cc (rw e at h))
  | inr e ↦ rw e (ap (λ ds. c ∷ ds) (no_keys cs (rw e at h)))
]

Perm-select : (cs : List Column) → Perm cs (select false cs ++ select true cs)
unfolding select
Perm-select [] = Perm.nil
Perm-select (c ∷ cs) = elim (Bool-cases (is_partition_column c)) [
  | inl e ↦ rw e (
      Perm.trans (Perm.cons c (Perm-select cs))
        (Perm.symm (perm_middle (select false cs) (select true cs))))
  | inr e ↦ rw e (Perm.cons c (Perm-select cs))
]

is_nil-nil : (cs : List Column) → is_nil cs ≡ true → cs ≡ []
is_nil-nil [] h = refl
is_nil-nil (c ∷ cs) h = absurd (cc h)

-- Whether or not the keys are moved, the columns are the others and then the keys.
moved :
    (t : Table) (cs : List Column)
    → t.columns ≡ cs
    → (if is_nil (select true cs)
        then t
        else record t { columns = select false cs ++ select true cs }).columns
      ≡ select false cs ++ select true cs
moved t cs h = elim (Bool-cases (is_nil (select true cs))) [
  | inl e ↦ rw e (h ∙ sym (no_keys cs e))
  | inr e ↦ rw e
]

pushed :
    (t : Table) (cs : List Column) (p q : Bool)
    → t.columns ≡ cs
    → p ≡ true
    → q ≡ true
    → (if is_nil cs || not p || not q
        then t
        else if is_nil (select true cs)
        then t
        else record t { columns = select false cs ++ select true cs }).columns
      ≡ select false cs ++ select true cs
pushed t [] true true h k l = unfold select in h
pushed t (c ∷ cs) true true h k l = moved t (c ∷ cs) h
pushed t cs true false h k l = absurd (cc l)
pushed t cs false q h k l = absurd (cc k)

-- In a partitioned table of a partitioned schema the columns that are no partition keys come first, then
-- the partition keys, each in the order in which they were.
pub reorder_columns_lem :
    (s : Schema) (t : Table)
    → s.partitioned ≡ true
    → t.partitioned ≡ true
    → (reorder_columns s t).columns ≡ select false t.columns ++ select true t.columns
unfolding reorder_columns
reorder_columns_lem s t h k =
    rw (split_columns_lem t.columns) (pushed t t.columns s.partitioned t.partitioned refl h k)

kept_or_moved :
    (t : Table) (b : Bool)
    → Perm t.columns
        (if b
          then t
          else if is_nil (select true t.columns)
          then t
          else record t { columns = select false t.columns ++ select true t.columns }).columns
kept_or_moved t true = Perm.refl t.columns
kept_or_moved t false = elim (Bool-cases (is_nil (select true t.columns))) [
  | inl e ↦ rw e (Perm.refl t.columns)
  | inr e ↦ rw e (Perm-select t.columns)
]

-- Reordering loses and adds no column, in whatever schema.
pub Perm-reorder_columns : (s : Schema) (t : Table) → Perm t.columns (reorder_columns s t).columns
unfolding reorder_columns
Perm-reorder_columns s t =
    rw (split_columns_lem t.columns)
      (kept_or_moved t (is_nil t.columns || not s.partitioned || not t.partitioned))
