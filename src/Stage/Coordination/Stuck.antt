-- ===== src/Stage/Coordination/Stuck.antt =====
-- Runs of the coordination in stage/stage.go as functions, and the states in which nothing moves.
use pbench.Prelude.{
  ℕ, zero, suc, ◌<◌, ◌≡◌, refl, false, Option, none, some, List, [], ◌∷◌, ◌++◌, arith, Option-cases,
  inl, inr, All, append_assoc, ◌≢◌, ap, sym, ◌∙◌,
}
use pbench.Stage.Coordination.{
  Graph, spawned, waiting, executing, unblocking, spawning, leaving, writer, Routine, stage_routine,
  Shared, Choice, go_on, see_cancel, write, fail, execute, act, State, Step, move, cancel,
  Reachable, extend, count,
}
use pbench.Stage.Coordination.Latches.{IsGraph}
use pbench.Stage.Coordination.Order.{parents_done, exit_latch-zero}

acted : List Routine → List Routine → Option (List Routine × Shared) → Option State
acted before after none = none
acted before after (some (new, sh)) =
    some (record { routines = before ++ (new ++ after); shared = sh })

-- The goroutine at `i` acts.
step_at : Graph → ℕ → Choice → List Routine → List Routine → Shared → Option State
unfolding act acted
step_at g i c before [] sh = none
step_at g zero c before (r ∷ after) sh = acted before after (act g c r sh)
step_at g (suc i) c before (r ∷ after) sh = step_at g i c (before ++ r ∷ []) after sh

-- A sequence of steps, each by the place of its goroutine.
unfoldable pub run : Graph → List (ℕ × Choice) → State → Option State
unfolding step_at
run g [] st = some st
run g ((i, c) ∷ events) st = elim (step_at g i c [] st.routines st.shared) [
  | none ↦ none
  | some st' ↦ run g events st'
]

-- A goroutine that waits for a prerequisite.
unfoldable pub IsBlocked : Shared → Routine → Type 0
IsBlocked sh (stage_routine s waiting) = 0 < sh.prerequisites s
IsBlocked sh r = ⊥

blocked_execute : (s n : ℕ) (sh : Shared) → 0 < n → execute s n sh ≡ none
unfolding execute
blocked_execute s zero sh k = absurd (omega arith)
blocked_execute s (suc n) sh k = refl

blocked_act :
    (g : Graph) (c : Choice) (r : Routine) (sh : Shared)
    → sh.cancelled ≡ false
    → IsBlocked sh r
    → act g c r sh ≡ none
unfolding IsBlocked act
blocked_act g go_on (stage_routine s waiting) sh h k = blocked_execute s (sh.prerequisites s) sh k
blocked_act g see_cancel (stage_routine s waiting) sh h k = rw h
blocked_act g write (stage_routine s waiting) sh h k = refl
blocked_act g fail (stage_routine s waiting) sh h k = refl
blocked_act g c r sh h k = absurd k

All-middle :
    (P : Routine → Type 0) (before after : List Routine) (r : Routine)
    → All P (before ++ r ∷ after)
    → P r
All-middle P [] after r (h, hs) = h
All-middle P (x ∷ before) after r (h, hs) = All-middle P before after r hs

-- No goroutine can act.
abbrev pub NothingMoves : Graph → State → Type 0
NothingMoves g st = All (λ r. (c : Choice) → act g c r st.shared ≡ none) st.routines

-- Steps after which the context is not cancelled.
pub data Waits (g : Graph) (st : State) : State → Type 0 where
  here : Waits g st st
  later : {a b : State} → Waits g st a → Step g a b → b.shared.cancelled ≡ false → Waits g st b

still_execute : (s n : ℕ) (sh : Shared) → execute s n sh ≡ none → 0 < n
unfolding execute
still_execute s zero sh h = absurd (cc h)
still_execute s (suc n) sh h = omega arith

-- A goroutine that cannot act waits for a prerequisite.
still_IsBlocked :
    (g : Graph) (r : Routine) (sh : Shared) → ((c : Choice) → act g c r sh ≡ none) → IsBlocked sh r
unfolding act IsBlocked
still_IsBlocked g (stage_routine s waiting) sh h = still_execute s (sh.prerequisites s) sh (h go_on)
still_IsBlocked g (stage_routine s spawned) sh h = absurd (cc (h go_on))
still_IsBlocked g (stage_routine s executing) sh h = absurd (cc (h go_on))
still_IsBlocked g (stage_routine s (unblocking f [])) sh h = absurd (cc (h go_on))
still_IsBlocked g (stage_routine s (unblocking f (c ∷ cs))) sh h = absurd (cc (h go_on))
still_IsBlocked g (stage_routine s (spawning [])) sh h = absurd (cc (h go_on))
still_IsBlocked g (stage_routine s (spawning (c ∷ cs))) sh h = absurd (cc (h go_on))
still_IsBlocked g (stage_routine s leaving) sh h = absurd (cc (h go_on))
still_IsBlocked g writer sh h = absurd (cc (h go_on))

all_IsBlocked :
    (g : Graph) (rs : List Routine) (sh : Shared)
    → All (λ r. (c : Choice) → act g c r sh ≡ none) rs
    → All (IsBlocked sh) rs
all_IsBlocked g [] sh h = tt
all_IsBlocked g (r ∷ rs) sh (h, hs) = (still_IsBlocked g r sh h, all_IsBlocked g rs sh hs)

blocked_stays :
    (g : Graph) (st st' : State)
    → st.shared.cancelled ≡ false
    → All (IsBlocked st.shared) st.routines
    → Step g st st'
    → st'.shared.cancelled ≡ false
    → st' ≡ st
blocked_stays g _ _ h b (move before after r c new sh sh' eq) k =
    absurd (cc (blocked_act g c r sh h (All-middle (IsBlocked sh) before after r b)))
blocked_stays g _ _ h b (cancel routines sh) k = absurd (cc k)

Waits-same :
    (g : Graph) (st st' : State)
    → st.shared.cancelled ≡ false
    → All (IsBlocked st.shared) st.routines
    → Waits g st st'
    → st' ≡ st
Waits-same g st _ h b here = refl
Waits-same g st st' h b (later {a = a} w step k) =
    let same = Waits-same g st a h b w in
    blocked_stays g st st' h b (transport_from g a st st' same step) k
  where
    transport_from : (g : Graph) (a st st' : State) → a ≡ st → Step g a st' → Step g st st'
    transport_from g a st st' e step = rw e at step

-- When goroutines are left, none of them can act, and the context is not cancelled, each of them waits
-- for a prerequisite of its stage. Whatever steps follow, as long as they do not cancel the context, the
-- state stays the same, with the exit latch above zero, so that the main stage waits too.
pub stuck_stays :
    (g : Graph) (st st' : State)
    → IsGraph g
    → Reachable g st
    → st.shared.cancelled ≡ false
    → st.routines ≢ []
    → NothingMoves g st
    → Waits g st st'
    → All (IsBlocked st.shared) st.routines × (st' ≡ st) × (st'.shared.exit_latch ≢ 0)
stuck_stays g st st' k reach h some_left still w =
    let blocked = all_IsBlocked g st.routines st.shared still in
    let same = Waits-same g st st' h blocked w in
    (
      blocked,
      same,
      λ z. some_left (exit_latch-zero g st k reach (ap (λ x. x.shared.exit_latch) (sym same) ∙ z)),
    )

not_executed : (n : ℕ) → (0 < n → ⊥) → n ≡ 0
not_executed zero h = refl
not_executed (suc n) h = absurd (h (omega arith))

-- A stage with a link from a stage that never begins does not execute.
pub never_begun-blocks :
    (g : Graph) (st : State) (p s : ℕ)
    → IsGraph g
    → Reachable g st
    → p < g.size
    → 0 < count s (g.next p)
    → st.shared.started p ≡ false
    → st.shared.executed s ≡ 0
never_begun-blocks g st p s k reach small link h =
    not_executed (st.shared.executed s)
      (λ e. cc ((parents_done g st p s k reach e small link).0, h))

transport-Step : (g : Graph) (st a b : State) → a ≡ b → Step g st a → Step g st b
transport-Step g st a b h k = rw h at k

transport-Reachable : (g : Graph) (a b : State) → a ≡ b → Reachable g a → Reachable g b
transport-Reachable g a b h k = rw h at k

acted-Step :
    (g : Graph) (c : Choice) (before after : List Routine) (r : Routine) (sh : Shared) (st' : State)
    (o : Option (List Routine × Shared))
    → act g c r sh ≡ o
    → acted before after o ≡ some st'
    → Step g (record { routines = before ++ r ∷ after; shared = sh }) st'
unfolding acted
acted-Step g c before after r sh st' none e h = absurd (cc h)
acted-Step g c before after r sh st' (some (new, sh')) e h =
    transport-Step g _ _ st' (cc h) (move before after r c new sh sh' e)

step_at-Step :
    (g : Graph) (i : ℕ) (c : Choice) (before after : List Routine) (sh : Shared) (st' : State)
    → step_at g i c before after sh ≡ some st'
    → Step g (record { routines = before ++ after; shared = sh }) st'
unfolding step_at
step_at-Step g i c before [] sh st' h = absurd (cc h)
step_at-Step g zero c before (r ∷ after) sh st' h =
    acted-Step g c before after r sh st' (act g c r sh) refl h
step_at-Step g (suc i) c before (r ∷ after) sh st' h =
    rw (append_assoc before (r ∷ []) after) at
      (step_at-Step g i c (before ++ r ∷ []) after sh st' h)

-- What a sequence of steps reaches from a reachable state is reachable.
pub run-Reachable :
    (g : Graph) (events : List (ℕ × Choice)) (st st' : State)
    → Reachable g st
    → run g events st ≡ some st'
    → Reachable g st'
unfolding run
run-Reachable g [] st st' reach h = transport-Reachable g st st' (cc h) reach
run-Reachable g ((i, c) ∷ events) st st' reach h =
    elim (Option-cases (step_at g i c [] st.routines st.shared)) [
      | inl e ↦ absurd (cc (rw (e, run) at h))
      | inr (st1, e) ↦
          run-Reachable g events st1 st'
            (extend reach (step_at-Step g i c [] st.routines st.shared st1 e)) (rw (e, run) at h)
    ]
