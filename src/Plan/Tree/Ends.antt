-- ===== src/Plan/Tree/Ends.antt =====
-- When `Traverse` of prestoapi/plan_node/plan_node.go comes to an end: the code does not guard against
-- a plan whose remote sources lead back to it.
use pbench.Prelude.{
  ℕ, zero, suc, ◌<◌, ◌≡◌, ◌⊎◌, refl, true, Option, none, some, List, [], ◌∷◌, Text, lookup,
  Bool-cases, Option-cases, inl, inr, arith, All, codes,
}
use pbench.Plan.Tree.{
  and_then, Info, PlanNode, node, PlanNodes, nil, cons, PlanTree, TraverseMode, bfs, dfs, PlanError,
  no_root, non_existent, is_remote, Outcome, traverse_tree,
}
use pbench.Plan.Tree.Order.{
  Itinerary, followed_by, both_orders, remote_itinerary, self_itinerary, node_itinerary,
  children_itinerary, itinerary, run_visits, end_with, traverse-itinerary,
}

-- The remote sources of a plan are below a rank.
unfoldable mutual
  pub NamesBelow : (Text → ℕ) → ℕ → PlanNode → Type 0
  NamesBelow rank k (node i children) =
      ((is_remote i ≡ true) → All (λ r. rank r < k) i.remote_sources) × AllBelow rank k children

  pub AllBelow : (Text → ℕ) → ℕ → PlanNodes → Type 0
  AllBelow rank k nil = Unit
  AllBelow rank k (cons n ns) = NamesBelow rank k n × AllBelow rank k ns

-- Every plan of the tree names only plans of a lower rank.
abbrev pub IsRanked : (Text → ℕ) → PlanTree → Type 0
IsRanked rank tree =
    (id : Text) (plan : PlanNode) → lookup id tree ≡ some plan → NamesBelow rank (rank id) plan

-- No error, or one of the traversal itself: the root or the plan of a remote source is missing.
abbrev pub IsMissing : Option PlanError → Type 0
IsMissing none = Unit
IsMissing (some no_root) = Unit
IsMissing (some (non_existent id)) = Unit
IsMissing (some e) = ⊥

abbrev Ends : Itinerary → Type 0
Ends p = IsMissing p.1

followed_by-Ends : (a b : Itinerary) → Ends a → Ends b → Ends (followed_by a b)
followed_by-Ends (vs, none) (ws, e) ha hb = hb
followed_by-Ends (vs, some d) b ha hb = ha

both_orders-Ends :
    (mode : TraverseMode) (a b : Itinerary) → Ends a → Ends b → Ends (both_orders mode a b)
both_orders-Ends bfs a b ha hb = followed_by-Ends a b ha hb
both_orders-Ends dfs a b ha hb = followed_by-Ends b a hb ha

module _ {S : Type 0} (fn : ℕ → Info → S → Outcome S) where
  -- No error, a plan that is missing, or what a call of the callback returned.
  abbrev pub IsAccountedFor : Option PlanError → Type 0
  IsAccountedFor e = IsMissing e ⊎ ((depth : ℕ) × (i : Info) × (s : S) × ((fn depth i s).1 ≡ e))

  and_then-ends :
      (o : Outcome S) (f : S → Outcome S)
      → IsAccountedFor o.1
      → ((s : S) → IsAccountedFor (f s).1)
      → IsAccountedFor (and_then o f).1
  and_then-ends (s, none) f h k = k s
  and_then-ends (s, some e) f h k = h

  run_visits-ends : (vs : List (ℕ × Info)) (s : S) → IsAccountedFor (run_visits fn vs s).1
  run_visits-ends [] s = inl tt
  run_visits-ends ((d, i) ∷ vs) s =
      and_then-ends (fn d i s) _ (inr (d, i, s, refl)) (run_visits-ends vs)

  end_with-ends :
      (e : Option PlanError) (o : Outcome S)
      → IsMissing e
      → IsAccountedFor o.1
      → IsAccountedFor (end_with fn e o).1
  end_with-ends e (s, none) h k = inl h
  end_with-ends e (s, some d) h k = k

module _ (rank : Text → ℕ) (tree : PlanTree) (ranked : IsRanked rank tree)
    (mode : TraverseMode) where
  module _ (k : ℕ) (path : ℕ → PlanNode → Itinerary)
      (h : (d : ℕ) (n : PlanNode) (j : ℕ) → j < k → NamesBelow rank j n → Ends (path d n)) where
    remote-Ends :
        (d : ℕ) (remotes : List Text)
        → All (λ r. rank r < k) remotes
        → Ends (remote_itinerary (path d) tree remotes)
    unfolding remote_itinerary
    remote-Ends d [] a = tt
    remote-Ends d (r ∷ remotes) (a, bs) = elim (Option-cases (lookup r tree)) [
      | inl e ↦ rw (e, remote_itinerary) tt
      | inr (plan, e) ↦
          rw (e, remote_itinerary)
            (followed_by-Ends _ _ (h d plan (rank r) a (ranked r plan e))
              (remote-Ends d remotes bs))
    ]

    self-Ends :
        (d : ℕ) (i : Info)
        → ((is_remote i ≡ true) → All (λ r. rank r < k) i.remote_sources)
        → Ends (self_itinerary (path d) (some tree) d i)
    unfolding self_itinerary
    self-Ends d i a = elim (Bool-cases (is_remote i)) [
      | inl e ↦ rw e (remote-Ends d i.remote_sources (a e))
      | inr e ↦ rw e tt
    ]

    mutual
      unfolding NamesBelow AllBelow node_itinerary children_itinerary

      node-Ends :
          (n : PlanNode) (d : ℕ)
          → NamesBelow rank k n
          → Ends (node_itinerary path mode (some tree) d n)
      node-Ends (node i children) d (a, b) =
          both_orders-Ends mode _ _ (self-Ends d i a) (children-Ends children (suc d) b)

      children-Ends :
          (ns : PlanNodes) (d : ℕ)
          → AllBelow rank k ns
          → Ends (children_itinerary path mode (some tree) d ns)
      children-Ends nil d _ = tt
      children-Ends (cons n ns) d (a, b) =
          followed_by-Ends _ _ (node-Ends n d a) (children-Ends ns d b)

  itinerary-Ends :
      (jumps k : ℕ) (d : ℕ) (n : PlanNode)
      → k < jumps
      → NamesBelow rank k n
      → Ends (itinerary jumps mode (some tree) d n)
  unfolding itinerary
  itinerary-Ends zero k d n lt b = absurd (omega arith)
  itinerary-Ends (suc jumps) k d n lt b =
      node-Ends k (λ e. itinerary jumps mode (some tree) e)
        (λ e m j below c. itinerary-Ends jumps j e m (omega arith) c) n d b

  -- If every plan names only remote sources of a lower rank, as those of a query do, and the context is
  -- never done, then the traversal of the tree in either order comes to an end, with one jump more than
  -- the rank of the root plan: it returns no error, or that the root or a remote source's plan is
  -- missing, or an error that a call of the callback returned.
  pub traverse_tree-Ends :
      {S : Type 0} (fn : ℕ → Info → S → Outcome S) (ctx_err : S → Option PlanError)
      → ((s : S) → ctx_err s ≡ none)
      → (jumps : ℕ) (s : S) → rank (codes "0") < jumps
      → IsAccountedFor fn (traverse_tree fn ctx_err jumps mode tree s).1
  unfolding traverse_tree
  traverse_tree-Ends fn ctx_err live jumps s lt = elim (Option-cases (lookup (codes "0") tree)) [
    | inl e ↦ rw (e, traverse_tree) (inl tt)
    | inr (root, e) ↦
        rw (e, traverse_tree, traverse-itinerary fn ctx_err live jumps mode (some tree) 0 root s)
          (end_with-ends fn _ _
            (itinerary-Ends jumps (rank (codes "0")) 0 root lt (ranked (codes "0") root e))
            (run_visits-ends fn (itinerary jumps mode (some tree) 0 root).0 s))
  ]
