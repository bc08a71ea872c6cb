-- ===== src/Plan/Trace.antt =====
-- `traceValue` of prestoapi/plan_node/plan_node.go. It changes the values in place, and the map of the
-- assignments shares them, so that they stand in a heap.
pub mod Kept
pub mod Returns
pub mod Loops
use pbench.Prelude.{
  ℕ, zero, suc, ◌≡◌, refl, Option, none, some, List, [], ◌∷◌, ◌++◌, Text, Map, lookup, ◌==◌,
  if◌then◌else◌,
}
use pbench.Plan.Values.{
  HiveTableHandle, DataType, Value, Values, nil, cons, column_handle, function_call, ident_ref,
  typed_value, type_casted, switch, math_expr, catch_all,
}

abbrev pub Ptr : Type 0
Ptr = ℕ

-- An object behind a `Value`. One that `traceValue` passes over is kept whole.
pub data Cell : Type 0 where
  column_cell : Text → Option HiveTableHandle → Cell
  call_cell : Text → List Ptr → List Text → Cell
  ident_cell : Text → Cell
  cast_cell : Ptr → DataType → Cell
  math_cell : Ptr → Text → Ptr → Cell
  other_cell : Value → Cell

pub record Heap : Type 0 where
  pub next : Ptr
  pub cell : Ptr → Cell

unfoldable pub write : Ptr → Cell → Heap → Heap
write a c h = record h { cell = λ p. if p == a then c else h.cell p }

abbrev new : Cell → Heap → Ptr × Heap
new c h = (h.next, record { next = suc h.next; cell = λ p. if p == h.next then c else h.cell p })

-- The objects that the parser builds for a value.
unfoldable mutual
  pub build : Value → Heap → Ptr × Heap
  build (column_handle n t) h = new (column_cell n t) h
  build (function_call f params options) h =
      let (ps, h') = build_all params h in new (call_cell f ps options) h'
  build (ident_ref x) h = new (ident_cell x) h
  build (typed_value d l) h = new (other_cell (typed_value d l)) h
  build (type_casted v d) h = let (p, h') = build v h in new (cast_cell p d) h'
  build (switch s) h = new (other_cell (switch s)) h
  build (math_expr l op r) h =
      let (p, h') = build l h in let (q, h'') = build r h' in new (math_cell p op q) h''
  build (catch_all s) h = new (other_cell (catch_all s)) h

  pub build_all : Values → Heap → List Ptr × Heap
  build_all nil h = ([], h)
  build_all (cons v vs) h =
      let (p, h') = build v h in let (ps, h'') = build_all vs h' in (p ∷ ps, h'')

-- A trace returns the value and the heap; nothing stands for a recursion that is too deep.
abbrev pub Traced : Type 0
Traced = Option (Ptr × Heap)

abbrev pub traced : Traced → (Ptr → Heap → Traced) → Traced
traced none k = none
traced (some (p, h)) k = k p h

-- The loop over the parameters of the call at `a`: those that are traced, and those that are not.
pub trace_params :
    (Ptr → Heap → Traced) → Ptr → Text → List Text → List Ptr → List Ptr → Heap → Traced
trace_params rec a f options before [] h = some (a, h)
trace_params rec a f options before (p ∷ params) h = traced (rec p h) (λ p' h'.
    trace_params rec a f options (before ++ p' ∷ []) params
      (write a (call_cell f ((before ++ p' ∷ []) ++ params) options) h'))

-- The cases of the type switch.
pub trace_cell :
    (Ptr → Heap → Traced) → Map Ptr → Option HiveTableHandle → Ptr → Cell → Heap → Traced
unfolding trace_params
trace_cell rec m t a (column_cell n none) h = some (a, write a (column_cell n t) h)
trace_cell rec m t a (column_cell n (some table)) h = some (a, h)
trace_cell rec m t a (cast_cell v d) h =
    traced (rec v h) (λ v' h'. some (a, write a (cast_cell v' d) h'))
trace_cell rec m t a (ident_cell x) h = elim (lookup x m) [ none ↦ some (a, h) | some p ↦ rec p h ]
trace_cell rec m t a (call_cell f params options) h = trace_params rec a f options [] params h
trace_cell rec m t a (math_cell l op r) h = traced (rec l h) (λ l' h'.
    traced (rec r (write a (math_cell l' op r) h'))
      (λ r' h''. some (a, write a (math_cell l' op r') h'')))
trace_cell rec m t a (other_cell v) h = some (a, h)

-- `traceValue`, with the depth of the recursion that is left.
unfoldable pub trace_value : ℕ → Map Ptr → Option HiveTableHandle → Ptr → Heap → Traced
unfolding trace_cell
trace_value zero m t a h = none
trace_value (suc depth) m t a h = trace_cell (trace_value depth m t) m t a (h.cell a) h
