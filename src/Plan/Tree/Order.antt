-- ===== src/Plan/Tree/Order.antt =====
-- The order in which `Traverse` of prestoapi/plan_node/plan_node.go visits the nodes.
use mathlib.Core.Path.{fun_ext}
use pbench.Prelude.{
  ℕ, zero, suc, ◌≡◌, refl, sym, ◌∙◌, ap, Option, none, some, List, [], ◌∷◌, ◌++◌, Text, lookup,
  if◌then◌else◌, Bool-cases, Option-cases, inl, inr,
}
use pbench.Plan.Tree.{
  Info, PlanNode, node, PlanNodes, nil, cons, PlanTree, TraverseMode, bfs, dfs, PlanError,
  non_existent, too_deep, is_remote, Outcome, and_then, visit_remotes, visit_node, around,
  unless_done, walk, walk_all, traverse,
}

-- The nodes to visit with their depths, and the error behind them, if there is one.
abbrev pub Itinerary : Type 0
Itinerary = List (ℕ × Info) × Option PlanError

abbrev pub followed_by : Itinerary → Itinerary → Itinerary
followed_by (vs, none) (ws, e) = (vs ++ ws, e)
followed_by (vs, some d) rest = (vs, some d)

abbrev pub both_orders : TraverseMode → Itinerary → Itinerary → Itinerary
both_orders bfs self children = followed_by self children
both_orders dfs self children = followed_by children self

unfoldable pub remote_itinerary : (PlanNode → Itinerary) → PlanTree → List Text → Itinerary
remote_itinerary visit tree [] = ([], none)
remote_itinerary visit tree (r ∷ remotes) = elim (lookup r tree) [
  | none ↦ ([], some (non_existent r))
  | some plan ↦ followed_by (visit plan) (remote_itinerary visit tree remotes)
]

unfoldable pub self_itinerary : (PlanNode → Itinerary) → Option PlanTree → ℕ → Info → Itinerary
unfolding remote_itinerary
self_itinerary visit none depth i = ((depth, i) ∷ [], none)
self_itinerary visit (some tree) depth i =
    if is_remote i then remote_itinerary visit tree i.remote_sources else ((depth, i) ∷ [], none)

unfoldable mutual
  unfolding self_itinerary

  pub node_itinerary :
      (ℕ → PlanNode → Itinerary) → TraverseMode → Option PlanTree → ℕ → PlanNode → Itinerary
  node_itinerary remote mode tree depth (node i children) =
      both_orders mode (self_itinerary (remote depth) tree depth i)
        (children_itinerary remote mode tree (suc depth) children)

  pub children_itinerary :
      (ℕ → PlanNode → Itinerary) → TraverseMode → Option PlanTree → ℕ → PlanNodes → Itinerary
  children_itinerary remote mode tree depth nil = ([], none)
  children_itinerary remote mode tree depth (cons n ns) =
      followed_by (node_itinerary remote mode tree depth n)
        (children_itinerary remote mode tree depth ns)

-- A node before its children (BFS) or behind them (DFS), with the plans of its remote sources, at its
-- own depth, in the place of a RemoteSource node.
unfoldable pub itinerary : ℕ → TraverseMode → Option PlanTree → ℕ → PlanNode → Itinerary
unfolding node_itinerary children_itinerary
itinerary zero mode tree depth n = ([], some too_deep)
itinerary (suc jumps) mode tree depth n =
    node_itinerary (λ d. itinerary jumps mode tree d) mode tree depth n

module _ {S : Type 0} (fn : ℕ → Info → S → Outcome S) where
  -- The callback at each visit, until one fails.
  abbrev pub run_visits : List (ℕ × Info) → S → Outcome S
  run_visits [] s = (s, none)
  run_visits ((d, i) ∷ vs) s = and_then (fn d i s) (run_visits vs)

  abbrev pub end_with : Option PlanError → Outcome S → Outcome S
  end_with e (s, none) = (s, e)
  end_with e (s, some d) = (s, some d)

  abbrev pub run_itinerary : Itinerary → S → Outcome S
  run_itinerary (vs, e) s = end_with e (run_visits vs s)

  and_then_assoc :
      (o : Outcome S) (f g : S → Outcome S)
      → and_then (and_then o f) g ≡ and_then o (λ s. and_then (f s) g)
  and_then_assoc (s, none) f g = refl
  and_then_assoc (s, some e) f g = refl

  end_with-and_then :
      (e : Option PlanError) (o : Outcome S) (f : S → Outcome S)
      → end_with e (and_then o f) ≡ and_then o (λ s. end_with e (f s))
  end_with-and_then e (s, none) f = refl
  end_with-and_then e (s, some d) f = refl

  pub run_visits-append :
      (vs ws : List (ℕ × Info)) (s : S)
      → run_visits (vs ++ ws) s ≡ and_then (run_visits vs s) (run_visits ws)
  run_visits-append [] ws s = refl
  run_visits-append ((d, i) ∷ vs) ws s =
      ap (and_then (fn d i s)) (fun_ext (run_visits-append vs ws))
      ∙ sym (and_then_assoc (fn d i s) (run_visits vs) (run_visits ws))

  end_none : (o : Outcome S) → end_with none o ≡ o
  end_none (s, none) = refl
  end_none (s, some e) = refl

  end_some :
      (o : Outcome S) (d : PlanError) (f : S → Outcome S)
      → end_with (some d) o ≡ and_then (end_with (some d) o) f
  end_some (s, none) d f = refl
  end_some (s, some e) d f = refl

  run-followed_by :
      (a b : Itinerary) (s : S)
      → run_itinerary (followed_by a b) s ≡ and_then (run_itinerary a s) (run_itinerary b)
  run-followed_by (vs, none) (ws, e) s =
      rw (run_visits-append vs ws s, end_none (run_visits vs s))
        (end_with-and_then e (run_visits vs s) (run_visits ws))
  run-followed_by (vs, some d) b s = end_some (run_visits vs s) d (run_itinerary b)

module _ {S : Type 0} (fn : ℕ → Info → S → Outcome S) (ctx_err : S → Option PlanError)
    (live : (s : S) → ctx_err s ≡ none) where
  run_one : (d : ℕ) (i : Info) (s : S) → fn d i s ≡ run_itinerary fn ((d, i) ∷ [], none) s
  run_one d i s = sym (one (fn d i s))
    where
      one : (o : Outcome S) → end_with fn none (and_then o (λ t. (t, none))) ≡ o
      one (s, none) = refl
      one (s, some e) = refl

  -- Two traversals, and two itineraries, in a row.
  step :
      (m k : S → Outcome S) (a b : Itinerary)
      → ((s : S) → m s ≡ run_itinerary fn a s)
      → ((s : S) → k s ≡ run_itinerary fn b s)
      → (s : S) → and_then (m s) k ≡ run_itinerary fn (followed_by a b) s
  step m k a b hm hk s = (λ i. and_then (hm s i) (fun_ext hk i)) ∙ sym (run-followed_by fn a b s)

  remotes_lem :
      (visit : PlanNode → S → Outcome S) (path : PlanNode → Itinerary)
      → ((n : PlanNode) (s : S) → visit n s ≡ run_itinerary fn (path n) s)
      → (tree : PlanTree) (remotes : List Text) (s : S)
      → visit_remotes fn ctx_err visit tree remotes s
        ≡ run_itinerary fn (remote_itinerary path tree remotes) s
  unfolding visit_remotes remote_itinerary
  remotes_lem visit path h tree [] s = refl
  remotes_lem visit path h tree (r ∷ remotes) s = elim (Option-cases (lookup r tree)) [
    | inl e ↦ rw (e, visit_remotes, remote_itinerary) refl
    | inr (plan, e) ↦
        rw (e, visit_remotes, remote_itinerary)
          (step (visit plan) (visit_remotes fn ctx_err visit tree remotes) (path plan)
            (remote_itinerary path tree remotes) (h plan) (remotes_lem visit path h tree remotes) s)
  ]

  self_lem :
      (visit : PlanNode → S → Outcome S) (path : PlanNode → Itinerary)
      → ((n : PlanNode) (s : S) → visit n s ≡ run_itinerary fn (path n) s)
      → (tree : Option PlanTree) (depth : ℕ) (i : Info) (s : S)
      → visit_node fn ctx_err visit tree depth i s
        ≡ run_itinerary fn (self_itinerary path tree depth i) s
  unfolding visit_node self_itinerary
  self_lem visit path h none depth i s = run_one depth i s
  self_lem visit path h (some tree) depth i s = elim (Bool-cases (is_remote i)) [
    | inl e ↦ rw e (remotes_lem visit path h tree i.remote_sources s)
    | inr e ↦ rw e (run_one depth i s)
  ]

  around_lem :
      (mode : TraverseMode) (m k : S → Outcome S) (a b : Itinerary)
      → ((s : S) → m s ≡ run_itinerary fn a s)
      → ((s : S) → k s ≡ run_itinerary fn b s)
      → (s : S)
      → unless_done fn ctx_err (around fn ctx_err mode m k) s
        ≡ run_itinerary fn (both_orders mode a b) s
  unfolding around unless_done
  around_lem bfs m k a b hm hk s = rw (live s, unless_done) (step m k a b hm hk s)
  around_lem dfs m k a b hm hk s = rw (live s, unless_done) (step k m b a hk hm s)

  module _ (remote : ℕ → PlanNode → S → Outcome S) (path : ℕ → PlanNode → Itinerary)
      (h : (d : ℕ) (n : PlanNode) (s : S) → remote d n s ≡ run_itinerary fn (path d n) s)
      (mode : TraverseMode) (tree : Option PlanTree) where
    mutual
      unfolding walk walk_all node_itinerary children_itinerary

      walk_lem :
          (n : PlanNode) (depth : ℕ) (s : S)
          → walk fn ctx_err remote mode tree depth n s
            ≡ run_itinerary fn (node_itinerary path mode tree depth n) s
      walk_lem (node i children) depth s =
          around_lem mode _ _ _ _ (self_lem (remote depth) (path depth) (h depth) tree depth i)
            (walk_all_lem children (suc depth)) s

      walk_all_lem :
          (ns : PlanNodes) (depth : ℕ) (s : S)
          → walk_all fn ctx_err remote mode tree depth ns s
            ≡ run_itinerary fn (children_itinerary path mode tree depth ns) s
      walk_all_lem nil depth s = refl
      walk_all_lem (cons n ns) depth s = step _ _ _ _ (walk_lem n depth) (walk_all_lem ns depth) s

  -- While the context is not done, a traversal is the callback at each node of the itinerary, with its
  -- depth, until a call fails; if none does, the traversal ends with the itinerary's own error, such as
  -- a remote source that does not exist.
  pub traverse-itinerary :
      (jumps : ℕ) (mode : TraverseMode) (tree : Option PlanTree) (depth : ℕ) (n : PlanNode) (s : S)
      → traverse fn ctx_err jumps mode tree depth n s
        ≡ run_itinerary fn (itinerary jumps mode tree depth n) s
  unfolding traverse itinerary
  traverse-itinerary zero mode tree depth n s = refl
  traverse-itinerary (suc jumps) mode tree depth n s =
      walk_lem (λ d. traverse fn ctx_err jumps mode tree d) (λ d. itinerary jumps mode tree d)
        (λ d m t. traverse-itinerary jumps mode tree d m t) mode tree n depth s
