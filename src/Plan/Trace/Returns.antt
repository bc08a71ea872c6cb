-- ===== src/Plan/Trace/Returns.antt =====
-- When `traceValue` of prestoapi/plan_node/plan_node.go returns, and what.
use mathlib.Core.Path.{subst}
use pbench.Prelude.{
  ℕ, zero, suc, ◌≤◌, ◌<◌, ◌≡◌, refl, sym, Option, none, some, List, [], ◌∷◌, ◌++◌, Text, Map,
  lookup, ◌==◌, arith, Option-cases, Bool-cases, inl, inr, ==_iff, All, All-append,
}
use pbench.Plan.Values.{HiveTableHandle}
use pbench.Plan.Trace.{
  Ptr, Cell, column_cell, call_cell, ident_cell, cast_cell, math_cell, other_cell, Heap, write,
  Traced, traced, trace_params, trace_cell, trace_value,
}

module _ (rank : Ptr → ℕ) (m : Map Ptr) where
  -- The values inside an object, and the value that is assigned to an identifier, are below a rank.
  abbrev pub IsBelow : ℕ → Cell → Type 0
  IsBelow k (column_cell n t) = Unit
  IsBelow k (call_cell f ps options) = All (λ p. rank p < k) ps
  IsBelow k (ident_cell x) = (p : Ptr) → lookup x m ≡ some p → rank p < k
  IsBelow k (cast_cell p d) = rank p < k
  IsBelow k (math_cell p op q) = (rank p < k) × (rank q < k)
  IsBelow k (other_cell v) = Unit

  abbrev pub IsAcyclic : Heap → Type 0
  IsAcyclic h = (p : Ptr) → IsBelow (rank p) (h.cell p)

  -- An identifier that is assigned is not left.
  abbrev pub IsTraced : Cell → Type 0
  IsTraced c = (x : Text) → c ≡ ident_cell x → lookup x m ≡ none

  abbrev pub Returns : ℕ → Traced → Type 0
  Returns k r =
      (b : Ptr) × (h : Heap) × (r ≡ some (b, h)) × IsAcyclic h × (rank b ≤ k) × IsTraced (h.cell b)

  write_self : (a : Ptr) (c : Cell) (h : Heap) → (write a c h).cell a ≡ c
  unfolding write
  write_self a c h = rw ((==_iff a a).1 refl)

  IsAcyclic-write :
      (a : Ptr) (c : Cell) (h : Heap) → IsAcyclic h → IsBelow (rank a) c → IsAcyclic (write a c h)
  unfolding write
  IsAcyclic-write a c h acyclic below = λ p. elim (Bool-cases (p == a)) [
    | inl e ↦ rw e (subst (λ q. IsBelow (rank q) c) (sym ((==_iff p a).0 e)) below)
    | inr e ↦ rw e (acyclic p)
  ]

  traced-Returns :
      (k j : ℕ) (r : Traced) (f : Ptr → Heap → Traced)
      → Returns k r
      → ((b : Ptr) (h : Heap) → IsAcyclic h → rank b ≤ k → Returns j (f b h))
      → Returns j (traced r f)
  traced-Returns k j r f (b, h, e, acyclic, le, _) g = rw e (g b h acyclic le)

  -- The object itself, with what it now holds.
  Returns-self :
      (a : Ptr) (c : Cell) (h : Heap)
      → IsAcyclic h
      → IsBelow (rank a) c
      → IsTraced c
      → Returns (rank a) (some (a, write a c h))
  Returns-self a c h acyclic below done = (
    a,
    write a c h,
    refl,
    IsAcyclic-write a c h acyclic below,
    omega arith,
    rw (write_self a c h) done,
  )

  module _ (rec : Ptr → Heap → Traced) (k : ℕ)
      (ih : (p : Ptr) (h : Heap) → rank p < k → IsAcyclic h → Returns (rank p) (rec p h)) (a : Ptr)
      (within : rank a ≤ k) where
    params-Returns :
        (f : Text) (options : List Text) (before params : List Ptr) (h : Heap)
        → All (λ p. rank p < rank a) before
        → All (λ p. rank p < rank a) params
        → IsAcyclic h
        → IsTraced (h.cell a)
        → Returns (rank a) (trace_params rec a f options before params h)
    unfolding trace_params
    params-Returns f options before [] h hb _ acyclic done =
        (a, h, refl, acyclic, omega arith, done)
    params-Returns f options before (p ∷ params) h hb (hp, hs) acyclic done =
        traced-Returns (rank p) (rank a) (rec p h) _ (ih p h (omega arith) acyclic)
          λ p' h' acyclic' le.
            let hb' = All-append (λ q. rank q < rank a) before (p' ∷ []) hb (omega arith, tt) in
            let c = call_cell f ((before ++ p' ∷ []) ++ params) options in
            params-Returns f options (before ++ p' ∷ []) params (write a c h') hb' hs
              (IsAcyclic-write a c h' acyclic'
                (All-append (λ q. rank q < rank a) (before ++ p' ∷ []) params hb' hs))
              (rw (write_self a c h') (λ x e. cc))

    cell-Returns :
        (t : Option HiveTableHandle) (c : Cell) (h : Heap)
        → h.cell a ≡ c
        → IsBelow (rank a) c
        → IsAcyclic h
        → Returns (rank a) (trace_cell rec m t a c h)
    unfolding trace_cell
    cell-Returns t (column_cell n none) h e b acyclic = Returns-self a _ h acyclic tt (λ x q. cc)
    cell-Returns t (column_cell n (some u)) h e b acyclic =
        (a, h, refl, acyclic, omega arith, rw e (λ x q. cc))
    cell-Returns t (cast_cell v d) h e b acyclic =
        traced-Returns (rank v) (rank a) (rec v h) _ (ih v h (omega arith) acyclic)
          λ v' h' acyclic' le. Returns-self a _ h' acyclic' (omega arith) (λ x q. cc)
    cell-Returns t (ident_cell x) h e b acyclic = elim (Option-cases (lookup x m)) [
      | inl o ↦ rw (o, trace_cell) (a, h, refl, acyclic, omega arith, rw e (λ y q. cc))
      | inr (p, o) ↦
          let lt = b p o in
          let (r, h', q, acyclic', le, done) = ih p h (omega arith) acyclic in
          rw (o, trace_cell) (r, h', q, acyclic', omega arith, done)
    ]
    cell-Returns t (call_cell f params options) h e b acyclic =
        params-Returns f options [] params h tt b acyclic (rw e (λ x q. cc))
    cell-Returns t (math_cell l op r) h e (bl, br) acyclic =
        traced-Returns (rank l) (rank a) (rec l h) _ (ih l h (omega arith) acyclic)
          λ l' h' acyclic' le.
            traced-Returns (rank r) (rank a) (rec r (write a (math_cell l' op r) h')) _
              (ih r _ (omega arith)
                (IsAcyclic-write a (math_cell l' op r) h' acyclic' (omega arith, br)))
              λ r' h'' acyclic'' le'.
                Returns-self a _ h'' acyclic'' (omega arith, omega arith) (λ x q. cc)
    cell-Returns t (other_cell v) h e b acyclic =
        (a, h, refl, acyclic, omega arith, rw e (λ x q. cc))

  -- If neither the values nor the assignments lead back to where they started, then `traceValue` returns
  -- within a depth that is above the rank of the value. They still do not lead back, and the value that
  -- it returns is no identifier to which a value is assigned.
  pub trace_value-Returns :
      (depth : ℕ) (t : Option HiveTableHandle) (a : Ptr) (h : Heap)
      → rank a < depth
      → IsAcyclic h
      → Returns (rank a) (trace_value depth m t a h)
  unfolding trace_value
  trace_value-Returns zero t a h lt acyclic = absurd (omega arith)
  trace_value-Returns (suc depth) t a h lt acyclic =
      cell-Returns (trace_value depth m t) depth
        (λ p g below ok. trace_value-Returns depth t p g below ok) a (omega arith) t (h.cell a) h
        refl (acyclic a) acyclic
