-- ===== src/Examples/PlanRuns.antt =====
-- Runs of the query plans.
use pbench.Prelude.{
  true, subst, text_eq_iff, ◌==◌, ℕ, ◌≡◌, refl, none, some, List, [], ◌∷◌, ◌++◌, arith, Text, Map,
  codes, lookup, text_eq, if◌then◌else◌, Bool-cases, inl, inr,
}
use pbench.Plan.Tree.{
  bfs, Info, PlanNode, node, nil, cons, PlanTree, dfs, too_deep, Outcome, is_remote, traverse,
  traverse_tree,
}
use pbench.Plan.Tree.Order.{itinerary, run_itinerary, traverse-itinerary}
use pbench.Plan.Tree.Ends.{IsAccountedFor, traverse_tree-Ends, NamesBelow, AllBelow, IsRanked}
use pbench.Plan.Values.{ident_ref, ColumnExp, column, predicate}
use pbench.Plan.Markers.{exactly, below, Marker, range_text, capture, is_quote}
use pbench.Plan.Markers.RoundTrip.{low_tokens, high_tokens, range_text-capture}
use pbench.Plan.Trace.{write, column_cell, ident_cell, column_cell, ident_cell, Heap, trace_value}
use pbench.Plan.Trace.Kept.{Keeps, trace_value-Keeps}
use pbench.Plan.Trace.Returns.{IsAcyclic, Returns, trace_value-Returns}
use pbench.Plan.Csv.{Json, Output, Ending, opened, process_file}
use pbench.Plan.Csv.Entries.{IsCompleted, outcomes, process_file-IsCompleted}
use pbench.Plan.Joins.{Parsers, Progress, assignment, assign_all}
use pbench.Plan.Joins.Cycles.{swapped-too_deep}

abbrev scan_info : Info
scan_info = record {
  id = codes "3";
  name = codes "TableScan";
  identifier = codes "t";
  details = [];
  remote_sources = [];
}

abbrev remote_info : Info
remote_info = record {
  id = codes "2";
  name = codes "RemoteSource";
  identifier = [];
  details = [];
  remote_sources = codes "1" ∷ [];
}

abbrev join_info : Info
join_info = record {
  id = codes "1";
  name = codes "InnerJoin";
  identifier = [];
  details = [];
  remote_sources = [];
}

abbrev root : PlanNode
root = node join_info (cons (node remote_info nil) (cons (node scan_info nil) nil))

abbrev fragment : PlanNode
fragment = node scan_info nil

abbrev tree : PlanTree
tree = (codes "0", root) ∷ (codes "1", fragment) ∷ []

abbrev record_name : ℕ → Info → List Text → Outcome (List Text)
record_name depth i names = (names ++ i.name ∷ [], none)

traverse-itinerary_example :
    traverse record_name (λ s. none) 2 dfs (some tree) 0 root []
    ≡ run_itinerary record_name (itinerary 2 dfs (some tree) 0 root) []
traverse-itinerary_example =
    traverse-itinerary record_name (λ s. none) (λ s. refl) 2 dfs (some tree) 0 root []

children_first :
    (traverse_tree record_name (λ s. none) 2 dfs tree []).0
    ≡ codes "TableScan" ∷ codes "TableScan" ∷ codes "InnerJoin" ∷ []
unfolding traverse_tree lookup text_eq
children_first = refl

abbrev rank : Text → ℕ
rank id = if text_eq id (codes "0") then 1 else 0

root-NamesBelow : NamesBelow rank 1 root
unfolding NamesBelow AllBelow is_remote text_eq
root-NamesBelow = (λ h. cc, ((λ h. (omega arith, tt), tt), ((λ h. cc, tt), tt)))

fragment-NamesBelow : (k : ℕ) → NamesBelow rank k fragment
unfolding NamesBelow AllBelow is_remote text_eq
fragment-NamesBelow k = (λ h. cc, tt)

some_inj : {p q : PlanNode} → some p ≡ some q → p ≡ q
some_inj e = cc

none-some : {p : PlanNode} → none ≡ some p → ⊥
none-some e = cc

tree-IsRanked : IsRanked rank tree
unfolding lookup
tree-IsRanked id plan e = elim (Bool-cases (text_eq (codes "0") id)) [
  | inl z ↦
      let same : codes "0" ≡ id = (text_eq_iff (codes "0") id).0 z in
      let p : root ≡ plan = some_inj (rw z at e) in
      subst (λ t. NamesBelow rank (rank t) plan) same
        (unfold text_eq in subst (NamesBelow rank 1) p root-NamesBelow)
  | inr z ↦ elim (Bool-cases (text_eq (codes "1") id)) [
    | inl y ↦
        subst (NamesBelow rank (rank id)) (some_inj (rw (z, y) at e))
          (fragment-NamesBelow (rank id))
    | inr y ↦ absurd (none-some (rw (z, y) at e))
  ]
]

traverse_tree-Ends_example :
    IsAccountedFor record_name (traverse_tree record_name (λ s. none) 2 bfs tree []).1
traverse_tree-Ends_example =
    traverse_tree-Ends rank tree tree-IsRanked bfs record_name (λ s. none) (λ s. refl) 2 []
      (unfold text_eq in omega arith)

abbrev assigned : Map ℕ
assigned = (codes "x", 0) ∷ []

abbrev heap : Heap
heap = record {
  next = 2;
  cell = λ p. if p == 0 then column_cell (codes "c") none else ident_cell (codes "x");
}

abbrev ranks : ℕ → ℕ
ranks p = p

traced : trace_value 2 assigned none 1 heap ≡ some (0, write 0 (column_cell (codes "c") none) heap)
unfolding trace_value lookup text_eq
traced = refl

trace_value-Keeps_example : Keeps heap (write 0 (column_cell (codes "c") none) heap)
trace_value-Keeps_example = trace_value-Keeps 2 assigned none 1 0 heap _ traced

heap-IsAcyclic : IsAcyclic ranks assigned heap
unfolding lookup text_eq
heap-IsAcyclic p = elim (Bool-cases (p == 0)) [
  | inl e ↦ rw e tt
  | inr e ↦ rw e (λ q h. ground arith)
]

trace_value-Returns_example : Returns ranks assigned 1 (trace_value 2 assigned none 1 heap)
trace_value-Returns_example =
    trace_value-Returns ranks assigned 2 none 1 heap (omega arith) heap-IsAcyclic

abbrev swapped : Progress
swapped = record {
  heap = record { next = 1; cell = λ p. ident_cell (codes "b") };
  assignments = (codes "a", 0) ∷ [];
  joins = [];
}

swapped-too_deep_example :
    (assign_all 9 none
      (assignment (codes "b") (ident_ref (codes "a"))
        ∷ assignment (codes "c") (ident_ref (codes "b"))
        ∷ [])
      swapped).1
    ≡ some too_deep
swapped-too_deep_example =
    swapped-too_deep 9 none (codes "b") (codes "a") (codes "c") 0 swapped
      (unfold lookup text_eq in refl) (unfold lookup text_eq in refl) refl (omega arith)

abbrev low : Marker
low = record { bound = exactly; value = codes "a" }

abbrev high : Marker
high = record { bound = below; value = [] }

range_text-capture_example :
    (range_text (record { low_value = some low; high_value = some high }) ≡ codes "[\"a\", <max>)")
    × (capture (low_tokens low) ≡ some low)
    × (capture (high_tokens high) ≡ some high)
unfolding is_quote
range_text-capture_example =
    range_text-capture low high ((refl, tt), λ e. cc, λ e. cc) (tt, λ e. cc, λ e. refl)

abbrev side : Text → ColumnExp
side c = column c

-- Every identifier of a join compares two columns.
abbrev parsers : Parsers
parsers = record {
  hive_table_handle = λ t. none;
  details = λ id t. none;
  join_predicates = λ id t. some (record {
    first_exp =
        predicate
          (record { left = side (codes "a"); op = codes "="; right = some (side (codes "b")) });
    and_exp = [];
    or_exp = [];
  });
}

abbrev json : Json
json = record {
  decode = λ t. if text_eq t (codes "plan") then some tree else none;
  marshal = λ joins h. some (codes "[]");
}

-- A header, a plan, a row without a plan, and a plan that is none.
process_file-IsCompleted_example :
    (r : Output × Ending) × (process_file parsers json 2 2 1 true (
        some (codes "id" ∷ codes "plan" ∷ [])
        ∷ some (codes "1" ∷ codes "plan" ∷ [])
        ∷ some (codes "2" ∷ [])
        ∷ some (codes "3" ∷ codes "x" ∷ [])
        ∷ [])
      ≡ some r)
    × IsCompleted opened
        (outcomes parsers json 2 2 1 2
          ((codes "1" ∷ codes "plan" ∷ []) ∷ (codes "2" ∷ []) ∷ (codes "3" ∷ codes "x" ∷ []) ∷ []))
        r
process_file-IsCompleted_example =
    process_file-IsCompleted parsers json 2 2 1 true (codes "id" ∷ codes "plan" ∷ [])
      ((codes "1" ∷ codes "plan" ∷ []) ∷ (codes "2" ∷ []) ∷ (codes "3" ∷ codes "x" ∷ []) ∷ [])
