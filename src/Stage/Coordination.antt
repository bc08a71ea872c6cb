-- ===== src/Stage/Coordination.antt =====
-- How the goroutines of the stages wait for each other: `run` and its deferred function in
-- stage/stage.go, the latches `started`, `wgPrerequisites` and `wgExitMainStage`, and the counts that
-- `ParseStage` of stage/map.go sets up. Each step is one action of one goroutine, so that every
-- interleaving is a sequence of steps.
pub mod Latches
pub mod Order
pub mod Stuck
use pbench.Prelude.{
  ℕ, zero, suc, ◌+◌, ◌≡◌, Bool, true, false, ◌||◌, Option, none, some, List, [], ◌∷◌, ◌++◌, ◌==◌,
  if◌then◌else◌, length,
}

-- The stages by number, their `NextStages`, and `*AbortOnError`.
pub record Graph : Type 0 where
  pub size : ℕ
  pub next : ℕ → List ℕ
  pub aborts : ℕ → Bool

-- Where a goroutine stands that executes `run` of a stage.
pub data Phase : Type 0 where
  spawned : Phase  -- in front of `started.CompareAndSwap`
  waiting : Phase  -- at the `select`
  executing : Phase  -- behind it
  unblocking : Bool → List ℕ → Phase  -- in the loop of `wgPrerequisites.Done`; has it failed?
  spawning : List ℕ → Phase  -- in the loop that starts the next stages
  leaving : Phase  -- at the last `wgExitMainStage.Done`

-- A goroutine of a stage, or one that writes a file.
pub data Routine : Type 0 where
  stage_routine : ℕ → Phase → Routine
  writer : Routine

pub record Shared : Type 0 where
  pub started : ℕ → Bool
  pub prerequisites : ℕ → ℕ  -- `wgPrerequisites`
  pub exit_latch : ℕ  -- `wgExitMainStage`
  pub cancelled : Bool  -- the context
  pub executed : ℕ → ℕ  -- how often the stage has come to execute its queries
  pub panicked : Bool  -- a latch has become negative

-- What a goroutine's outside decides: that the context is seen to be cancelled, that a file is written
-- in the background, or that the stage fails.
pub data Choice : Type 0 where
  go_on : Choice
  see_cancel : Choice
  write : Choice
  fail : Choice

-- `f` with another value at `k`.
unfoldable pub update {ℓ} : {A : Type ℓ} → (ℕ → A) → ℕ → A → ℕ → A
update f k v j = if k == j then v else f j

unfoldable pub count : ℕ → List ℕ → ℕ
count s [] = 0
count s (c ∷ cs) = let rest = count s cs in if c == s then suc rest else rest

-- `wgExitMainStage.Done()`, which panics at zero.
exit_done : ℕ → Shared → Shared
exit_done zero sh = record sh { panicked = true }
exit_done (suc n) sh = record sh { exit_latch = n }

-- `nextStage.wgPrerequisites.Done()`
prerequisite_done : ℕ → ℕ → Shared → Shared
prerequisite_done c zero sh = record sh { panicked = true }
prerequisite_done c (suc n) sh = record sh { prerequisites = update sh.prerequisites c n }

abbrev Outcome : Type 0
Outcome = Option (List Routine × Shared)

begin : ℕ → Bool → Shared → List Routine × Shared
unfolding exit_done
begin s true sh = ([], exit_done sh.exit_latch sh)
begin s false sh = (stage_routine s waiting ∷ [], record sh { started = update sh.started s true })

execute : ℕ → ℕ → Shared → Outcome
execute s zero sh = some (
  stage_routine s executing ∷ [],
  record sh { executed = update sh.executed s (suc (sh.executed s)) },
)
execute s (suc n) sh = none

-- The deferred function with an error.
failed : Graph → ℕ → Shared → List Routine × Shared
failed g s sh = (
  stage_routine s (unblocking true (g.next s)) ∷ [],
  record sh { cancelled = sh.cancelled || g.aborts s },
)

-- Behind the loop of `Done`: the next stages are started unless the stage has failed.
unblocked : Graph → ℕ → Bool → Shared → List Routine × Shared
unblocked g s true sh = (stage_routine s leaving ∷ [], sh)
unblocked g s false sh = (
  stage_routine s (spawning (g.next s)) ∷ [],
  record sh { exit_latch = sh.exit_latch + length (g.next s) },
)

-- The next action of a goroutine: the goroutines that stand in its place, and what they share.
unfoldable pub act : Graph → Choice → Routine → Shared → Outcome
unfolding begin execute failed unblocked prerequisite_done exit_done
act g go_on (stage_routine s spawned) sh = some (begin s (sh.started s) sh)
act g go_on (stage_routine s waiting) sh = execute s (sh.prerequisites s) sh
act g see_cancel (stage_routine s waiting) sh = if sh.cancelled then some (failed g s sh) else none
act g go_on (stage_routine s executing) sh =
    some (stage_routine s (unblocking false (g.next s)) ∷ [], sh)
act g write (stage_routine s executing) sh =
    some (stage_routine s executing ∷ writer ∷ [], record sh { exit_latch = suc sh.exit_latch })
act g fail (stage_routine s executing) sh = some (failed g s sh)
act g go_on (stage_routine s (unblocking f [])) sh = some (unblocked g s f sh)
act g go_on (stage_routine s (unblocking f (c ∷ cs))) sh =
    some (stage_routine s (unblocking f cs) ∷ [], prerequisite_done c (sh.prerequisites c) sh)
act g go_on (stage_routine s (spawning [])) sh = some (stage_routine s leaving ∷ [], sh)
act g go_on (stage_routine s (spawning (c ∷ cs))) sh =
    some (stage_routine s (spawning cs) ∷ stage_routine c spawned ∷ [], sh)
act g go_on (stage_routine s leaving) sh = some ([], exit_done sh.exit_latch sh)
act g go_on writer sh = some ([], exit_done sh.exit_latch sh)
act g c r sh = none

pub record State : Type 0 where
  pub routines : List Routine
  pub shared : Shared

-- One goroutine acts, or the context is cancelled from outside.
pub data Step (g : Graph) : State → State → Type 0 where
  move :
      (before after : List Routine) (r : Routine) (c : Choice) (new : List Routine)
      (sh sh' : Shared)
      → act g c r sh ≡ some (new, sh')
      → Step g
          (record { routines = before ++ r ∷ after; shared = sh })
          (record { routines = before ++ (new ++ after); shared = sh' })
  cancel :
      (routines : List Routine) (sh : Shared)
      → Step g
          (record { routines = routines; shared = sh })
          (record { routines = routines; shared = record sh { cancelled = true } })

-- A sum over the numbers below `n`.
pub sum_below : ℕ → (ℕ → ℕ) → ℕ
sum_below zero f = 0
sum_below (suc n) f = sum_below n f + f n

-- `ParseStage` adds one to the latch of a stage for each link to it; `Run` starts stage 0.
unfoldable pub initial : Graph → State
unfolding sum_below count
initial g = record {
  routines = stage_routine 0 spawned ∷ [];
  shared = record {
    started = λ s. false;
    prerequisites = λ s. sum_below g.size (λ p. count s (g.next p));
    exit_latch = 1;
    cancelled = false;
    executed = λ s. 0;
    panicked = false;
  };
}

pub data Reachable (g : Graph) : State → Type 0 where
  start : Reachable g (initial g)
  extend : {st st' : State} → Reachable g st → Step g st st' → Reachable g st'
