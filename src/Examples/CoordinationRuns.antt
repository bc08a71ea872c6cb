-- ===== src/Examples/CoordinationRuns.antt =====
-- Interleavings of stages.
use pbench.Prelude.{
  All, ◌≢◌, sym, ◌∙◌, ℕ, zero, suc, ◌==◌, if◌then◌else◌, ◌≡◌, ◌≤◌, refl, true, false, none, some,
  List, [], ◌∷◌, arith, Option,
}
use pbench.Stage.Coordination.{
  act, see_cancel, write, Graph, State, stage_routine, waiting, Choice, go_on, fail, initial,
  Reachable, start, count, update,
}
use pbench.Stage.Coordination.Latches.{IsGraph, IsLatched, Reachable-IsLatched, sum_of}
use pbench.Stage.Coordination.Order.{exit_latch-zero, executed_once, parents_done, busy}
use pbench.Stage.Coordination.Stuck.{NothingMoves, here, run, IsBlocked, stuck_stays, run-Reachable}

-- 0 links to 1 and 2, 1 to 4, 2 to 3, and 3 to 4.
abbrev links : ℕ → List ℕ
links p =
    if p == 0
    then 1 ∷ 2 ∷ []
    else if p == 1
    then 4 ∷ []
    else if p == 2
    then 3 ∷ []
    else if p == 3
    then 4 ∷ []
    else []

abbrev diamond : Graph
diamond = record { size = 5; next = links; aborts = λ s. false }

diamond-IsGraph : IsGraph diamond
diamond-IsGraph p h = ground arith

abbrev repeat : ℕ → ℕ × Choice → List (ℕ × Choice) → List (ℕ × Choice)
repeat zero e es = es
repeat (suc n) e es = e ∷ repeat n e es

abbrev after_run : List (ℕ × Choice) → Option State
after_run es = run diamond es (initial diamond)

-- Stage 0 executes, and 1 begins to.
abbrev early : List (ℕ × Choice)
early = repeat 10 (0, go_on) (repeat 2 (1, go_on) [])

-- Stage 2 fails: stage 3 never begins, and stage 4 waits for it.
abbrev failing : List (ℕ × Choice)
failing = repeat 12 (0, go_on) ((0, fail) ∷ repeat 12 (0, go_on) [])

abbrev reached : Option State → State
reached none = initial diamond
reached (some st) = st

abbrev early_state : State
early_state = reached (after_run early)

early-Reachable : Reachable diamond early_state
unfolding run initial update
early-Reachable = run-Reachable diamond early (initial diamond) early_state start refl

abbrev stuck_state : State
stuck_state = reached (after_run failing)

stuck-Reachable : Reachable diamond stuck_state
unfolding run initial update
stuck-Reachable = run-Reachable diamond failing (initial diamond) stuck_state start refl

stuck_routines : stuck_state.routines ≡ stage_routine 4 waiting ∷ []
unfolding run initial update
stuck_routines = refl

Reachable-IsLatched_example : IsLatched diamond stuck_state
Reachable-IsLatched_example =
    Reachable-IsLatched diamond stuck_state diamond-IsGraph stuck-Reachable

executed_once_example :
    stuck_state.shared.executed 2 ≤ (if stuck_state.shared.started 2 then 1 else 0)
executed_once_example = executed_once diamond stuck_state 2 diamond-IsGraph stuck-Reachable

parents_done_example :
    (early_state.shared.started 0 ≡ true) × (sum_of (busy 0) early_state.routines ≡ 0)
parents_done_example =
    parents_done diamond early_state 0 1 diamond-IsGraph early-Reachable
      (unfold run initial update in omega arith) (omega arith) (unfold count in omega arith)

stuck_still : (c : Choice) → act diamond c (stage_routine 4 waiting) stuck_state.shared ≡ none
unfolding run initial update act
stuck_still go_on = refl
stuck_still see_cancel = refl
stuck_still write = refl
stuck_still fail = refl

stuck-NothingMoves : NothingMoves diamond stuck_state
unfolding run initial update
stuck-NothingMoves = (stuck_still, tt)

stuck_stays_example :
    All (IsBlocked stuck_state.shared) stuck_state.routines
    × (stuck_state ≡ stuck_state)
    × (stuck_state.shared.exit_latch ≢ 0)
stuck_stays_example =
    stuck_stays diamond stuck_state stuck_state diamond-IsGraph stuck-Reachable
      (unfold run initial update in refl) (λ e. cc (sym stuck_routines ∙ e)) stuck-NothingMoves here

abbrev lone : Graph
lone = record { size = 1; next = λ p. []; aborts = λ s. false }

abbrev lone_state : State
lone_state = reached (run lone (repeat 6 (0, go_on) []) (initial lone))

lone-Reachable : Reachable lone lone_state
unfolding run initial update
lone-Reachable = run-Reachable lone (repeat 6 (0, go_on) []) (initial lone) lone_state start refl

exit_latch-zero_example : lone_state.routines ≡ []
exit_latch-zero_example =
    exit_latch-zero lone lone_state (λ p h. refl) lone-Reachable (unfold run initial update in refl)
