-- ===== src/Plan/Joins/Predicates.antt =====
-- The joins that a node adds in `ParseJoins` of prestoapi/plan_node/plan_node.go.
use mathlib.Core.Path.{fun_ext}
use pbench.Prelude.{
  ◌≡◌, refl, sym, ap, ◌∙◌, true, Option, none, some, List, [], ◌∷◌, ◌++◌, Text, Map, append_assoc,
  append-nil,
}
use pbench.Plan.Tree.{Info, Outcome, and_then, pure}
use pbench.Plan.Values.{
  Expression, JoinPredicate, JoinIdentifier, get_join_predicates, get_joins, predicate_assignments,
}
use pbench.Plan.Trace.{Ptr}
use pbench.Plan.Joins.{
  Parsers, Join, Progress, is_join, joined, add_predicate, add_predicates, add_expressions,
  read_joins,
}

-- The predicates of all expressions.
abbrev pub predicates_of : List Expression → List JoinPredicate
predicates_of [] = []
predicates_of (e ∷ es) = get_join_predicates e ++ predicates_of es

-- Both sides of each predicate, if each has a right side.
abbrev pub sides_of : List JoinPredicate → Option (List (List Text × List Text))
sides_of [] = some []
sides_of (p ∷ ps) = elim (predicate_assignments p) [
  | none ↦ none
  | some s ↦ elim (sides_of ps) [ none ↦ none | some ss ↦ some (s ∷ ss) ]
]

abbrev pub joins_of : Text → Map Ptr → List (List Text × List Text) → List Join
joins_of n m [] = []
joins_of n m (s ∷ ss) = joined n m s ++ joins_of n m ss

cons_sides :
    (o : Option (List Text × List Text)) (r : Option (List (List Text × List Text)))
    (sides : List (List Text × List Text))
    → elim o as (λ _. Option (List (List Text × List Text))) [
      | none ↦ none
      | some s ↦ elim r [ none ↦ none | some ss ↦ some (s ∷ ss) ]
    ]
      ≡ some sides
    → (s : List Text × List Text) × (ss : List (List Text × List Text)) × (o ≡ some s)
      × (r ≡ some ss)
      × (sides ≡ s ∷ ss)
cons_sides none r sides h = cc
cons_sides (some s) none sides h = cc
cons_sides (some s) (some ss) sides h = (s, ss, refl, refl, cc)

abbrev with_joins : Progress → List Join → Progress
with_joins p js = record p { joins = p.joins ++ js }

add_predicate_lem :
    (n : Text) (q : JoinPredicate) (s : List Text × List Text) (p : Progress)
    → predicate_assignments q ≡ some s
    → add_predicate n q p ≡ pure (with_joins p (joined n p.assignments s))
unfolding add_predicate
add_predicate_lem n q s p e = rw (e, add_predicate) refl

add_predicates_lem :
    (n : Text) (ps : List JoinPredicate) (sides : List (List Text × List Text)) (p : Progress)
    → sides_of ps ≡ some sides
    → add_predicates n ps p ≡ pure (with_joins p (joins_of n p.assignments sides))
unfolding add_predicates add_predicate
add_predicates_lem n [] sides p h = let e : [] ≡ sides = cc in rw (← e, append-nil p.joins) refl
add_predicates_lem n (q ∷ ps) sides p h =
    let (s, ss, e, r, eq) = cons_sides (predicate_assignments q) (sides_of ps) sides h in
    let js = joined n p.assignments s in
    rw (add_predicate_lem n q s p e, eq)
      (add_predicates_lem n ps ss (with_joins p js) r
        ∙ ap (λ l. pure (record p { joins = l }))
            (append_assoc p.joins js (joins_of n p.assignments ss)))

and_then_assoc :
    (o : Outcome Progress) (f g : Progress → Outcome Progress)
    → and_then (and_then o f) g ≡ and_then o (λ p. and_then (f p) g)
and_then_assoc (p, none) f g = refl
and_then_assoc (p, some e) f g = refl

add_predicates-append :
    (n : Text) (ps qs : List JoinPredicate) (p : Progress)
    → add_predicates n (ps ++ qs) p ≡ and_then (add_predicates n ps p) (add_predicates n qs)
unfolding add_predicates
add_predicates-append n [] qs p = refl
add_predicates-append n (q ∷ ps) qs p =
    ap (and_then (add_predicate n q p)) (fun_ext (add_predicates-append n ps qs))
    ∙ sym (and_then_assoc (add_predicate n q p) (add_predicates n ps) (add_predicates n qs))

add_expressions_lem :
    (n : Text) (es : List Expression) (p : Progress)
    → add_expressions n es p ≡ add_predicates n (predicates_of es) p
unfolding add_expressions
add_expressions_lem n [] p = unfold add_predicates in refl
add_expressions_lem n (e ∷ es) p =
    ap (and_then (add_predicates n (get_join_predicates e) p)) (fun_ext (add_expressions_lem n es))
    ∙ sym (add_predicates-append n (get_join_predicates e) (predicates_of es) p)

-- If every predicate of a join node has a right side, then the node adds, in the order of the
-- predicates, one join for each predicate that has one assignment on each side, and changes nothing
-- else. The expressions of a node are never empty, so that no node fails with that error.
pub read_joins_lem :
    (parsers : Parsers) (id : Text) (i : Info) (j : JoinIdentifier)
    (sides : List (List Text × List Text)) (p : Progress)
    → is_join i.name ≡ true
    → parsers.join_predicates id i.identifier ≡ some j
    → sides_of (predicates_of (get_joins j)) ≡ some sides
    → read_joins parsers id i p
      ≡ pure (record p { joins = p.joins ++ joins_of i.name p.assignments sides })
unfolding read_joins
read_joins_lem parsers id i j sides p e q h =
    rw (e, q)
      (unfold get_joins in
        (add_expressions_lem i.name (get_joins j) p
          ∙ add_predicates_lem i.name (predicates_of (get_joins j)) sides p h))
