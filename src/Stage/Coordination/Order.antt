-- ===== src/Stage/Coordination/Order.antt =====
-- What the latches of stage/stage.go are for: when the run ends, and when a stage executes.
use pbench.Prelude.{
  ℕ, zero, suc, ◌<◌, ◌≤◌, ◌≡◌, refl, Bool, true, List, [], ◌∷◌, ◌==◌, if◌then◌else◌, arith,
  Bool-cases, inl, inr,
}
use pbench.Stage.Coordination.{
  Graph, spawned, waiting, executing, unblocking, spawning, leaving, Routine, stage_routine, writer,
  State, count, sum_below, Reachable,
}
use pbench.Stage.Coordination.Latches.{
  weight, holds, sum_of, not_begun, IsGraph, Reachable-IsLatched,
}

weight_positive : (r : Routine) → 0 < weight r
unfolding weight
weight_positive (stage_routine s (spawning cs)) = omega arith
weight_positive (stage_routine s spawned) = omega arith
weight_positive (stage_routine s waiting) = omega arith
weight_positive (stage_routine s executing) = omega arith
weight_positive (stage_routine s (unblocking f cs)) = omega arith
weight_positive (stage_routine s leaving) = omega arith
weight_positive writer = omega arith

no_weight : (rs : List Routine) → sum_of weight rs ≡ 0 → rs ≡ []
no_weight [] h = refl
no_weight (r ∷ rs) h = absurd (omega (arith, weight_positive r))

-- The main stage's wait for the exit latch ends only when no goroutine is left, neither one of a stage
-- nor one that writes a file.
pub exit_latch-zero :
    (g : Graph) (st : State)
    → IsGraph g
    → Reachable g st
    → st.shared.exit_latch ≡ 0
    → st.routines ≡ []
exit_latch-zero g st k reach h =
    let l = Reachable-IsLatched g st k reach in no_weight st.routines (omega (arith, l.exit))

-- However many parents start a stage, it executes at most once, and not before it has begun.
pub executed_once :
    (g : Graph) (st : State) (s : ℕ)
    → IsGraph g
    → Reachable g st
    → st.shared.executed s ≤ (if st.shared.started s then 1 else 0)
executed_once g st s k reach = let l = Reachable-IsLatched g st k reach in ground (arith, l.once s)

-- Is this a goroutine of `p` that waits or executes?
unfoldable pub busy : ℕ → Routine → ℕ
busy p (stage_routine q waiting) = if q == p then 1 else 0
busy p (stage_routine q executing) = if q == p then 1 else 0
busy p (stage_routine q phase) = 0
busy p writer = 0

busy-holds :
    (g : Graph) (p s : ℕ) (r : Routine) → 0 < count s (g.next p) → holds g s r ≡ 0 → busy p r ≡ 0
unfolding holds busy
busy-holds g p s (stage_routine q waiting) h k = elim (Bool-cases (q == p)) [
  | inl e ↦ absurd (ground (arith, e, k, h))
  | inr e ↦ rw e refl
]
busy-holds g p s (stage_routine q executing) h k = elim (Bool-cases (q == p)) [
  | inl e ↦ absurd (ground (arith, e, k, h))
  | inr e ↦ rw e refl
]
busy-holds g p s (stage_routine q spawned) h k = refl
busy-holds g p s (stage_routine q (unblocking f cs)) h k = refl
busy-holds g p s (stage_routine q (spawning cs)) h k = refl
busy-holds g p s (stage_routine q leaving) h k = refl
busy-holds g p s writer h k = refl

none_busy :
    (g : Graph) (p s : ℕ) (rs : List Routine)
    → 0 < count s (g.next p)
    → sum_of (holds g s) rs ≡ 0
    → sum_of (busy p) rs ≡ 0
none_busy g p s [] h k = refl
none_busy g p s (r ∷ rs) h k =
    omega (arith, busy-holds g p s r h (omega arith), none_busy g p s rs h (omega arith))

begun_below :
    (n p : ℕ) (started : ℕ → Bool) (f : ℕ → ℕ)
    → p < n
    → 0 < f p
    → sum_below n (λ q. if started q then 0 else f q) ≡ 0
    → started p ≡ true
unfolding sum_below
begun_below zero p started f h k e = absurd (omega arith)
begun_below (suc n) p started f h k e = elim (Bool-cases (p == n)) [
  | inl same ↦ ground arith
  | inr other ↦ begun_below n p started f (ground arith) k (omega arith)
]

-- When a stage has come to execute, every stage that links to it has begun, and none of them waits or
-- executes any more.
pub parents_done :
    (g : Graph) (st : State) (p s : ℕ)
    → IsGraph g
    → Reachable g st
    → 0 < st.shared.executed s
    → p < g.size
    → 0 < count s (g.next p)
    → (st.shared.started p ≡ true) × (sum_of (busy p) st.routines ≡ 0)
unfolding not_begun
parents_done g st p s k reach h small link =
    let l = Reachable-IsLatched g st k reach in
    let zero' = l.passed s h in
    (
      begun_below g.size p st.shared.started (λ q. count s (g.next q)) small link
          (omega (arith, l.held s)),
      none_busy g p s st.routines link (omega (arith, l.held s)),
    )
