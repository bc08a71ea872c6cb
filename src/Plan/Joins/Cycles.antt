-- ===== src/Plan/Joins/Cycles.antt =====
-- Assignments of two nodes that name each other: prestoapi/plan_node/plan_node.go recurs for ever.
use pbench.Prelude.{
  ℕ, zero, suc, ◌<◌, ◌≡◌, refl, Option, none, some, [], ◌∷◌, Text, lookup, insert, lookup-insert,
  text_eq_self, arith,
}
use pbench.Plan.Tree.{PlanError, too_deep, Outcome, and_then, pure}
use pbench.Plan.Values.{HiveTableHandle, ident_ref}
use pbench.Plan.Trace.{Ptr, ident_cell, Heap, build, trace_value}
use pbench.Plan.Trace.Loops.{trace_ident, trace_value_loops}
use pbench.Plan.Joins.{
  List, Statement, assignment, Progress, assign_traced, assign_built, assign, assign_all,
}

-- An identifier that has been built.
built_cell : (x : Text) (h : Heap) → (build (ident_ref x) h).1.cell h.next ≡ ident_cell x
unfolding build
built_cell x h = ground arith

built_old :
    (x y : Text) (h : Heap) (a : Ptr)
    → a < h.next
    → h.cell a ≡ ident_cell y
    → (build (ident_ref x) h).1.cell a ≡ ident_cell y
unfolding build
built_old x y h a lt e = ground arith

abbrev with_ident : Text → Progress → Progress
with_ident x p = record p { heap = (build (ident_ref x) p.heap).1 }

-- The statement `z := x`.
assign_ident :
    (depth : ℕ) (t : Option HiveTableHandle) (z x : Text) (p : Progress)
    → assign depth t (assignment z (ident_ref x)) p
      ≡ assign_traced z
          (with_ident x p)
          (trace_value depth p.assignments t p.heap.next (with_ident x p).heap)
unfolding assign assign_built build
assign_ident depth t z x p = refl

trace_none :
    (z : Text) (p : Progress) (r : Option (Ptr × Heap))
    → r ≡ none
    → (assign_traced z p r).1 ≡ some too_deep
unfolding assign_traced
trace_none z p r e = rw e refl

-- The statement `z := x` where `x` is an identifier to which itself is assigned.
assign_loop :
    (depth : ℕ) (t : Option HiveTableHandle) (z x : Text) (a : Ptr) (p : Progress)
    → lookup x p.assignments ≡ some a
    → p.heap.cell a ≡ ident_cell x
    → a < p.heap.next
    → (assign depth t (assignment z (ident_ref x)) p).1 ≡ some too_deep
assign_loop depth t z x a p l e lt =
    rw (assign_ident depth t z x p) (trace_none z (with_ident x p) _ (fresh depth))
  where
    fresh : (d : ℕ) → trace_value d p.assignments t p.heap.next (with_ident x p).heap ≡ none
    fresh zero = unfold trace_value in refl
    fresh (suc d) =
        rw
          (
            trace_ident d p.assignments t x p.heap.next (with_ident x p).heap (built_cell x p.heap),
            l,
          )
          (trace_value_loops d p.assignments t x a (with_ident x p).heap l
            (built_old x x p.heap a lt e))

-- The statement `x := y` where `y` stands for the identifier `x`: from then on `x` stands for itself.
assign_back :
    (depth : ℕ) (t : Option HiveTableHandle) (x y : Text) (a : Ptr) (p : Progress)
    → lookup y p.assignments ≡ some a
    → lookup x p.assignments ≡ none
    → p.heap.cell a ≡ ident_cell x
    → a < p.heap.next
    → assign (suc (suc depth)) t (assignment x (ident_ref y)) p
      ≡ pure (record p { heap = (with_ident y p).heap; assignments = insert x a p.assignments })
assign_back depth t x y a p ly lx e lt =
    rw
      (
        assign_ident (suc (suc depth)) t x y p,
        trace_ident (suc depth) p.assignments t y p.heap.next (with_ident y p).heap
            (built_cell y p.heap),
        ly,
        trace_ident depth p.assignments t x a (with_ident y p).heap (built_old y x p.heap a lt e),
        lx,
      )
      (unfold assign_traced in refl)

and_then_error :
    (o : Outcome Progress) (f : Progress → Outcome Progress) (e : PlanError)
    → o.1 ≡ some e
    → (and_then o f).1 ≡ some e
and_then_error (p, none) f e h = cc
and_then_error (p, some d) f e h = h

first_fails :
    (depth : ℕ) (t : Option HiveTableHandle) (s : Statement) (rest : List Statement) (p : Progress)
    → (assign depth t s p).1 ≡ some too_deep
    → (assign_all depth t (s ∷ rest) p).1 ≡ some too_deep
unfolding assign_all
first_fails depth t s rest p h = and_then_error (assign depth t s p) _ too_deep h

-- Let `y` stand for the identifier `x`, to which nothing is assigned. Once `x := y` has been read, a
-- statement `z := x` makes the code recur without end: no depth is enough.
pub swapped-too_deep :
    (depth : ℕ) (t : Option HiveTableHandle) (x y z : Text) (a : Ptr) (p : Progress)
    → lookup y p.assignments ≡ some a
    → lookup x p.assignments ≡ none
    → p.heap.cell a ≡ ident_cell x
    → a < p.heap.next
    → (assign_all depth t (assignment x (ident_ref y) ∷ assignment z (ident_ref x) ∷ []) p).1
      ≡ some too_deep
swapped-too_deep zero t x y z a p ly lx e lt =
    first_fails zero t _ _ p (
      rw (assign_ident zero t x y p) (trace_none x (with_ident y p) _ (unfold trace_value in refl)))
swapped-too_deep (suc zero) t x y z a p ly lx e lt = first_fails (suc zero) t _ _ p (
    rw (assign_ident (suc zero) t x y p) (
      trace_none x (with_ident y p) _ (
        rw
          (
            trace_ident zero p.assignments t y p.heap.next (with_ident y p).heap
                (built_cell y p.heap),
            ly,
          )
          (unfold trace_value in refl))))
swapped-too_deep (suc (suc depth)) t x y z a p ly lx e lt =
    let p' : Progress = record p {
      heap = (with_ident y p).heap;
      assignments = insert x a p.assignments;
    } in
    unfold assign_all in
    rw (assign_back depth t x y a p ly lx e lt) (
      first_fails (suc (suc depth)) t (assignment z (ident_ref x)) [] p' (
        assign_loop (suc (suc depth)) t z x a p'
          (rw (lookup-insert x x a p.assignments, text_eq_self x) refl)
          (built_old y x p.heap a lt e) (unfold build in omega arith)))
