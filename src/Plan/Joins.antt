-- ===== src/Plan/Joins.antt =====
-- `PlanTree.ParseJoins` of prestoapi/plan_node/plan_node.go. The parsers that package participle builds,
-- and the regular expression of `ParseHiveTableHandle`, are parameters.
pub mod Predicates
pub mod Cycles
use pbench.Prelude.{
  ℕ, zero, suc, ◌≡◌, refl, Bool, true, false, ◌||◌, Option, none, some, List, [], ◌∷◌, ◌++◌, Text,
  Map, lookup, insert, codes, text_eq, if◌then◌else◌,
}
use mathlib.Core.List.{reverse}
use pbench.Plan.Tree.{
  Info, PlanTree, dfs, PlanError, too_deep, bad_details, bad_identifier, no_join, nil_dereference,
  Outcome, and_then, pure, traverse_tree,
}
use pbench.Plan.Values.{
  HiveTableHandle, Value, Expression, JoinPredicate, JoinIdentifier, get_join_predicates, get_joins,
  predicate_assignments,
}
use pbench.Plan.Trace.{Ptr, Heap, build, trace_value}

-- `PlanNodeDetailStmt`: an assignment, or a statement that is passed over.
pub data Statement : Type 0 where
  assignment : Text → Value → Statement
  other_statement : Statement

pub record Parsers : Type 0 where
  pub hive_table_handle : Text → Option HiveTableHandle
  pub details : Text → Text → Option (List Statement)
  pub join_predicates : Text → Text → Option JoinIdentifier

-- `Join`: a value that is not assigned is nil.
pub record Join : Type 0 where
  pub join_type : Text
  pub left_value : Option Ptr
  pub right_value : Option Ptr

-- What the callback changes: the values, `assignmentMap` and `joins`.
pub record Progress : Type 0 where
  pub heap : Heap
  pub assignments : Map Ptr
  pub joins : List Join

-- `IsJoin[name]`
pub is_join : Text → Bool
is_join n =
    text_eq n (codes "LeftJoin") || text_eq n (codes "RightJoin") || text_eq n (codes "InnerJoin")

-- One assignment, whose value has been built.
pub assign_traced : Text → Progress → Option (Ptr × Heap) → Outcome Progress
assign_traced x p none = (p, some too_deep)
assign_traced x p (some (a, h)) =
    pure (record p { heap = h; assignments = insert x a p.assignments })

pub assign_built : ℕ → Option HiveTableHandle → Text → Ptr × Heap → Progress → Outcome Progress
unfolding assign_traced
assign_built depth t x (a, h) p =
    assign_traced x (record p { heap = h }) (trace_value depth p.assignments t a h)

pub assign : ℕ → Option HiveTableHandle → Statement → Progress → Outcome Progress
unfolding assign_built
assign depth t (assignment x v) p = assign_built depth t x (build v p.heap) p
assign depth t other_statement p = pure p

pub assign_all : ℕ → Option HiveTableHandle → List Statement → Progress → Outcome Progress
unfolding assign
assign_all depth t [] p = pure p
assign_all depth t (s ∷ statements) p =
    and_then (assign depth t s p) (assign_all depth t statements)

-- The statements from the last to the first.
pub read_details : Parsers → ℕ → Option HiveTableHandle → Text → Text → Progress → Outcome Progress
unfolding assign_all
read_details parsers depth t id [] p = pure p
read_details parsers depth t id (c ∷ details) p = elim (parsers.details id (c ∷ details)) [
  | none ↦ (p, some (bad_details (c ∷ details)))
  | some statements ↦ assign_all depth t (reverse statements) p
]

abbrev one : List Text → Option Text
one [] = none
one (x ∷ []) = some x
one (x ∷ y ∷ xs) = none

-- The join of a predicate with one assignment on each side.
pub joined : Text → Map Ptr → List Text × List Text → List Join
joined n m (left, right) = elim (one left) [
  | none ↦ []
  | some x ↦ elim (one right) [
    | none ↦ []
    | some y ↦ record { join_type = n; left_value = lookup x m; right_value = lookup y m } ∷ []
  ]
]

pub add_predicate : Text → JoinPredicate → Progress → Outcome Progress
unfolding joined
add_predicate n pred p = elim (predicate_assignments pred) [
  | none ↦ (p, some nil_dereference)
  | some sides ↦ pure (record p { joins = p.joins ++ joined n p.assignments sides })
]

pub add_predicates : Text → List JoinPredicate → Progress → Outcome Progress
unfolding add_predicate
add_predicates n [] p = pure p
add_predicates n (pred ∷ preds) p = and_then (add_predicate n pred p) (add_predicates n preds)

pub add_expressions : Text → List Expression → Progress → Outcome Progress
unfolding add_predicates
add_expressions n [] p = pure p
add_expressions n (e ∷ es) p =
    and_then (add_predicates n (get_join_predicates e) p) (add_expressions n es)

abbrev some_join : List Expression → (Progress → Outcome Progress) → Progress → Outcome Progress
some_join [] body p = (p, some no_join)
some_join (e ∷ es) body p = body p

pub read_joins : Parsers → Text → Info → Progress → Outcome Progress
unfolding add_expressions is_join
read_joins parsers id i p =
    if is_join i.name
    then elim (parsers.join_predicates id i.identifier) [
      | none ↦ (p, some (bad_identifier i.identifier))
      | some j ↦ some_join (get_joins j) (add_expressions i.name (get_joins j)) p
    ]
    else pure p

-- The callback, on a node.
pub visit : Parsers → ℕ → Info → Progress → Outcome Progress
unfolding read_details read_joins
visit parsers depth i p =
    let id = i.id ++ b'_' ∷ i.name in
    and_then (read_details parsers depth (parsers.hive_table_handle i.identifier) id i.details p)
      (read_joins parsers id i)

abbrev pub no_progress : Progress
no_progress = record {
  heap = record { next = 0; cell = λ p. pbench.Plan.Trace.Cell.ident_cell [] };
  assignments = [];
  joins = [];
}

-- `ParseJoins`: the joins with the values behind them, or the error.
pub parse_joins : Parsers → ℕ → ℕ → PlanTree → Outcome Progress
unfolding visit
parse_joins parsers jumps depth tree =
    traverse_tree (λ d i. visit parsers depth i) (λ p. none) jumps dfs tree no_progress
