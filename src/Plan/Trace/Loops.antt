-- ===== src/Plan/Trace/Loops.antt =====
-- Where `traceValue` of prestoapi/plan_node/plan_node.go does not return: an identifier to which itself
-- is assigned.
use pbench.Prelude.{ℕ, zero, suc, ◌≡◌, refl, Option, none, some, Text, Map, lookup}
use pbench.Plan.Values.{HiveTableHandle}
use pbench.Plan.Trace.{Ptr, ident_cell, Heap, trace_cell, trace_value}

pub trace_ident :
    (depth : ℕ) (m : Map Ptr) (t : Option HiveTableHandle) (x : Text) (a : Ptr) (h : Heap)
    → h.cell a ≡ ident_cell x
    → trace_value (suc depth) m t a h ≡ elim (lookup x m) as (λ o. Option (Ptr × Heap)) [
      | none ↦ some (a, h)
      | some p ↦ trace_value depth m t p h
    ]
unfolding trace_value trace_cell
trace_ident depth m t x a h e = rw e refl

-- Whatever the depth, the trace of such an identifier is too deep.
pub trace_value_loops :
    (depth : ℕ) (m : Map Ptr) (t : Option HiveTableHandle) (x : Text) (p : Ptr) (h : Heap)
    → lookup x m ≡ some p
    → h.cell p ≡ ident_cell x
    → trace_value depth m t p h ≡ none
unfolding trace_value
trace_value_loops zero m t x p h l e = refl
trace_value_loops (suc depth) m t x p h l e =
    rw (trace_ident depth m t x p h e, l) (trace_value_loops depth m t x p h l e)
