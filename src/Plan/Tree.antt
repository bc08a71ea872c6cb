-- ===== src/Plan/Tree.antt =====
-- `PlanNode.Traverse` and `PlanTree.Traverse` of prestoapi/plan_node/plan_node.go. The callback and the
-- context are parameters; the callback works on a state.
pub mod Order
pub mod Ends
use pbench.Prelude.{
  ℕ, zero, suc, ◌≡◌, refl, Bool, true, false, Option, none, some, List, [], ◌∷◌, Text, Map, lookup,
  codes, text_eq, if◌then◌else◌,
}

-- `PlanNode` without its children and estimates.
pub record Info : Type 0 where
  pub id : Text
  pub name : Text
  pub identifier : Text
  pub details : Text
  pub remote_sources : List Text

mutual
  pub data PlanNode : Type 0 where
    node : Info → PlanNodes → PlanNode

  pub data PlanNodes : Type 0 where
    nil : PlanNodes
    cons : PlanNode → PlanNodes → PlanNodes

abbrev pub PlanTree : Type 0
PlanTree = Map PlanNode

pub data TraverseMode : Type 0 where
  bfs : TraverseMode
  dfs : TraverseMode

-- `too_deep` stands for a traversal that does not come to an end at this depth.
pub data PlanError : Type 0 where
  no_root : PlanError
  non_existent : Text → PlanError
  too_deep : PlanError
  context_done : PlanError
  bad_details : Text → PlanError
  bad_identifier : Text → PlanError
  no_join : PlanError
  nil_dereference : PlanError

unfoldable pub is_remote : Info → Bool
is_remote i = text_eq i.name (codes "RemoteSource")

-- What a traversal returns: the state, and the error if there is one.
abbrev pub Outcome : Type 0 → Type 0
Outcome S = S × Option PlanError

-- `if err := m; err != nil { return err }`
abbrev pub and_then : {S : Type 0} → Outcome S → (S → Outcome S) → Outcome S
and_then (s, none) k = k s
and_then (s, some e) k = (s, some e)

abbrev pub pure : {S : Type 0} → S → Outcome S
pure s = (s, none)

module _ {S : Type 0} (fn : ℕ → Info → S → Outcome S) (ctx_err : S → Option PlanError) where
  -- The loop over `n.RemoteSources`, where `visit` is the traversal of a plan.
  pub visit_remotes : (PlanNode → S → Outcome S) → PlanTree → List Text → S → Outcome S
  visit_remotes visit tree [] s = pure s
  visit_remotes visit tree (r ∷ remotes) s = elim (lookup r tree) [
    | none ↦ (s, some (non_existent r))
    | some plan ↦ and_then (visit plan s) (visit_remotes visit tree remotes)
  ]

  -- The node itself: its remote sources in its place, or the callback.
  pub visit_node : (PlanNode → S → Outcome S) → Option PlanTree → ℕ → Info → S → Outcome S
  unfolding visit_remotes is_remote
  visit_node visit none depth i s = fn depth i s
  visit_node visit (some tree) depth i s =
      if is_remote i then visit_remotes visit tree i.remote_sources s else fn depth i s

  pub around : TraverseMode → (S → Outcome S) → (S → Outcome S) → S → Outcome S
  around bfs self children s = and_then (self s) children
  around dfs self children s = and_then (children s) self

  -- `ctx.Err()` ends the traversal of a node.
  pub unless_done : (S → Outcome S) → S → Outcome S
  unless_done body s = elim (ctx_err s) [ none ↦ body s | some e ↦ (s, some e) ]

  -- The traversal of a plan node, with that of a remote source's plan, at the node's depth, as `remote`.
  mutual
    unfolding visit_node around unless_done

    pub walk :
        (ℕ → PlanNode → S → Outcome S)
        → TraverseMode
        → Option PlanTree
        → ℕ
        → PlanNode
        → S
        → Outcome S
    walk remote mode tree depth (node i children) = unless_done (
        around mode (visit_node (remote depth) tree depth i)
          (walk_all remote mode tree (suc depth) children))

    pub walk_all :
        (ℕ → PlanNode → S → Outcome S)
        → TraverseMode
        → Option PlanTree
        → ℕ
        → PlanNodes
        → S
        → Outcome S
    walk_all remote mode tree depth nil s = pure s
    walk_all remote mode tree depth (cons n ns) s =
        and_then (walk remote mode tree depth n s) (walk_all remote mode tree depth ns)

  -- `PlanNode.Traverse`, where at most `jumps` remote sources are entered one inside the other.
  pub traverse : ℕ → TraverseMode → Option PlanTree → ℕ → PlanNode → S → Outcome S
  unfolding walk walk_all
  traverse zero mode tree depth n s = (s, some too_deep)
  traverse (suc jumps) mode tree depth n s =
      walk (λ d. traverse jumps mode tree d) mode tree depth n s

  -- `PlanTree.Traverse`: from the plan "0", at depth 0.
  unfoldable pub traverse_tree : ℕ → TraverseMode → PlanTree → S → Outcome S
  unfolding traverse
  traverse_tree jumps mode tree s = elim (lookup (codes "0") tree) [
    | none ↦ (s, some no_root)
    | some root ↦ traverse jumps mode (some tree) 0 root s
  ]
