-- ===== src/Plan/Values.antt =====
-- The values, expressions and predicates that the parsers of prestoapi/plan_node (details.go,
-- identifier.go) return. The grammars, which package participle reads from the struct tags, are not
-- modelled.
use pbench.Prelude.{Option, none, some, List, [], ◌∷◌, ◌++◌, Text}

pub record HiveTableHandle : Type 0 where
  pub schema : Text
  pub table : Text
  pub catalog : Text

pub record DataType : Type 0 where
  pub name : Text
  pub option : Text

-- `Value`, with a constructor for each struct. Of a column handle the name and the table are kept. A
-- `Switch` is kept as the text of its source: no function of the package looks into it.
mutual
  pub data Value : Type 0 where
    column_handle : Text → Option HiveTableHandle → Value
    function_call : Text → Values → List Text → Value
    ident_ref : Text → Value
    typed_value : Text → Text → Value
    type_casted : Value → DataType → Value
    switch : Text → Value
    math_expr : Value → Text → Value → Value
    catch_all : Text → Value

  pub data Values : Type 0 where
    nil : Values
    cons : Value → Values → Values

-- `GetAssignments` of the values.
mutual
  pub get_assignments : Value → List Text
  get_assignments (column_handle n t) = []
  get_assignments (function_call f params options) = get_all_assignments params
  get_assignments (ident_ref x) = x ∷ []
  get_assignments (typed_value d l) = []
  get_assignments (type_casted v d) = get_assignments v
  get_assignments (switch s) = []
  get_assignments (math_expr l op r) = get_assignments l ++ get_assignments r
  get_assignments (catch_all s) = []

  pub get_all_assignments : Values → List Text
  get_all_assignments nil = []
  get_all_assignments (cons v vs) = get_assignments v ++ get_all_assignments vs

-- `ColumnExp`
pub data ColumnExp : Type 0 where
  column : Text → ColumnExp
  parans_column : Value → ColumnExp

-- `GetAssignments` of the columns.
pub column_assignments : ColumnExp → List Text
unfolding get_assignments
column_assignments (column n) = n ∷ []
column_assignments (parans_column v) = get_assignments v

-- The right side may be missing.
pub record JoinPredicate : Type 0 where
  pub left : ColumnExp
  pub op : Text
  pub right : Option ColumnExp

-- `JoinPredicate.GetAssignments`, or nothing where a nil interface is called.
pub predicate_assignments : JoinPredicate → Option (List Text × List Text)
unfolding column_assignments
predicate_assignments p = elim p.right [
  | none ↦ none
  | some r ↦ some (column_assignments p.left, column_assignments r)
]

-- `Expression`. The right side of a logical expression may be missing: `single`.
pub data Expression : Type 0 where
  single : Expression → Expression
  logical : Expression → Text → Expression → Expression
  predicate : JoinPredicate → Expression
  call : Text → Values → Expression

-- `GetJoinPredicates`
pub get_join_predicates : Expression → List JoinPredicate
get_join_predicates (single e) = get_join_predicates e
get_join_predicates (logical l op r) = get_join_predicates l ++ get_join_predicates r
get_join_predicates (predicate p) = p ∷ []
get_join_predicates (call f params) = []

-- `JoinIdentifier`
pub record JoinIdentifier : Type 0 where
  pub first_exp : Expression
  pub and_exp : List Expression
  pub or_exp : List Expression

-- `GetJoins`
unfoldable pub get_joins : JoinIdentifier → List Expression
get_joins j = j.first_exp ∷ (j.and_exp ++ j.or_exp)
