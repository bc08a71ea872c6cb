-- ===== src/Stage/Coordination/Latches.antt =====
-- The invariant of the latches of stage/stage.go: what their counts stand for.
use pbench.Prelude.{
  ℕ, zero, suc, ◌+◌, ◌<◌, ◌≤◌, ◌≡◌, refl, Bool, true, false, Option, none, some, List, [], ◌∷◌,
  ◌++◌, ◌==◌, if◌then◌else◌, length, arith, ltb, Bool-cases, inl, inr,
}
use pbench.Stage.Coordination.{
  Graph, Phase, spawned, waiting, executing, unblocking, spawning, leaving, Routine, stage_routine,
  writer, Shared, Choice, go_on, see_cancel, write, fail, update, count, exit_done,
  prerequisite_done, begin, execute, failed, unblocked, act, State, Step, move, cancel, sum_below,
  initial, Reachable, start, extend,
}

-- What a goroutine still has to take from `wgExitMainStage`: one, and one for each stage that it has
-- counted and not started.
unfoldable pub weight : Routine → ℕ
weight (stage_routine s (spawning cs)) = suc (length cs)
weight (stage_routine s p) = 1
weight writer = 1

unfoldable pub waits : ℕ → Routine → ℕ
waits s (stage_routine q waiting) = if q == s then 1 else 0
waits s (stage_routine q p) = 0
waits s writer = 0

-- How often a goroutine that has begun will still release `wgPrerequisites` of stage `s`.
unfoldable pub holds : Graph → ℕ → Routine → ℕ
holds g s (stage_routine q waiting) = count s (g.next q)
holds g s (stage_routine q executing) = count s (g.next q)
holds g s (stage_routine q (unblocking f cs)) = count s cs
holds g s (stage_routine q p) = 0
holds g s writer = 0

abbrev pub sum_of : (Routine → ℕ) → List Routine → ℕ
sum_of f [] = 0
sum_of f (r ∷ rs) = f r + sum_of f rs

-- The links to `s` of stages that have not begun.
unfoldable pub not_begun : Graph → (ℕ → Bool) → ℕ → ℕ
not_begun g started s = sum_below g.size (λ p. if started p then 0 else count s (g.next p))

abbrev bit : Bool → ℕ
bit true = 1
bit false = 0

-- The latches, where `e`, `w` and `h` stand for what other goroutines add.
pub record Latches (g : Graph) (e : ℕ) (w h : ℕ → ℕ) (rs : List Routine) (sh : Shared)
    : Type 0 where
  pub exit : sh.exit_latch ≡ e + sum_of weight rs
  pub once : (s : ℕ) → w s + sum_of (waits s) rs + sh.executed s ≤ bit (sh.started s)
  pub held : (s : ℕ) → sh.prerequisites s ≡ h s + sum_of (holds g s) rs + not_begun g sh.started s
  pub passed : (s : ℕ) → 0 < sh.executed s → sh.prerequisites s ≡ 0
  pub sound : sh.panicked ≡ false

-- No stage beyond the size has next stages.
abbrev pub IsGraph : Graph → Type 0
IsGraph g = (p : ℕ) → g.size ≤ p → g.next p ≡ []

sum_below-update :
    (n q : ℕ) (started : ℕ → Bool) (f : ℕ → ℕ)
    → started q ≡ false
    → sum_below n (λ p. if update started q true p then 0 else f p) + (if ltb q n then f q else 0)
      ≡ sum_below n (λ p. if started p then 0 else f p)
unfolding sum_below update
sum_below-update zero q started f h = ground arith
sum_below-update (suc n) q started f h = ground (arith, sum_below-update n q started f h)

count_nil : (s : ℕ) → count s [] ≡ 0
unfolding count
count_nil s = refl

-- A stage that begins takes over its links.
not_begun-update :
    (g : Graph) (q s : ℕ) (started : ℕ → Bool)
    → IsGraph g
    → started q ≡ false
    → not_begun g (update started q true) s + count s (g.next q) ≡ not_begun g started s
unfolding not_begun
not_begun-update g q s started k h = elim (Bool-cases (ltb q g.size)) [
  | inl e ↦ simp e at (sum_below-update g.size q started (λ p. count s (g.next p)) h)
  | inr e ↦
      let none' : g.next q ≡ [] = k q (ground arith) in
      ground
        (arith, sum_below-update g.size q started (λ p. count s (g.next p)) h, none', count_nil s)
]

module _ (g : Graph) (k : IsGraph g) (e : ℕ) (w h : ℕ → ℕ) where
  abbrev Keeps : Option (List Routine × Shared) → Type 0
  Keeps none = Unit
  Keeps (some (new, sh)) = Latches g e w h new sh

  -- A goroutine that ends releases the exit latch, which is not zero then.
  exit_done-Latches :
      (r : Routine) (n : ℕ) (sh : Shared)
      → sh.exit_latch ≡ n
      → weight r ≡ 1
      → ((s : ℕ) → holds g s r ≡ 0)
      → Latches g e w h (r ∷ []) sh
      → Latches g e w h [] (exit_done n sh)
  unfolding exit_done
  exit_done-Latches r zero sh eq one nothing l = absurd (omega (arith, l.exit))
  exit_done-Latches r (suc n) sh eq one nothing l = record {
    exit = omega (arith, l.exit);
    once = λ s. omega (arith, l.once s);
    held = λ s. omega (arith, l.held s, nothing s);
    passed = l.passed;
    sound = l.sound;
  }

  begin-Latches :
      (s : ℕ) (b : Bool) (sh : Shared)
      → sh.started s ≡ b
      → Latches g e w h (stage_routine s spawned ∷ []) sh
      → Latches g e w h (begin s b sh).0 (begin s b sh).1
  unfolding begin
  begin-Latches s true sh eq l =
      exit_done-Latches (stage_routine s spawned) sh.exit_latch sh refl (unfold weight in refl)
        (λ s'. unfold holds in refl) l
  begin-Latches s false sh eq l = record {
    exit = unfold weight in omega (arith, l.exit);
    once = λ s'. unfold update waits in ground (arith, l.once s', eq);
    held = λ s'. unfold holds in omega (arith, l.held s', not_begun-update g s s' sh.started k eq);
    passed = l.passed;
    sound = l.sound;
  }

  execute-Latches :
      (s n : ℕ) (sh : Shared)
      → sh.prerequisites s ≡ n
      → Latches g e w h (stage_routine s waiting ∷ []) sh
      → Keeps (execute s n sh)
  unfolding execute
  execute-Latches s zero sh eq l = record {
    exit = unfold weight in omega (arith, l.exit);
    once = λ s'. unfold update waits in ground (arith, l.once s');
    held = λ s'. unfold holds in l.held s';
    passed = λ s' p. unfold update in ground (arith, l.passed s', eq);
    sound = l.sound;
  }
  execute-Latches s (suc n) sh eq l = tt

  holds_unblocking :
      (s s' : ℕ) → holds g s (stage_routine s' (unblocking true (g.next s'))) ≡ count s (g.next s')
  unfolding holds
  holds_unblocking s s' = refl

  failed-Latches :
      (s : ℕ) (p : Phase) (sh : Shared)
      → ((s' : ℕ) → holds g s' (stage_routine s p) ≡ count s' (g.next s))
      → weight (stage_routine s p) ≡ 1
      → Latches g e w h (stage_routine s p ∷ []) sh
      → Latches g e w h (failed g s sh).0 (failed g s sh).1
  unfolding failed
  failed-Latches s p sh same one l = record {
    exit = unfold weight in omega (arith, l.exit, one);
    once = λ s'. unfold waits in omega (arith, l.once s');
    held = λ s'. omega (arith, l.held s', same s', holds_unblocking s' s);
    passed = l.passed;
    sound = l.sound;
  }

  unblocked-Latches :
      (s : ℕ) (f : Bool) (sh : Shared)
      → Latches g e w h (stage_routine s (unblocking f []) ∷ []) sh
      → Latches g e w h (unblocked g s f sh).0 (unblocked g s f sh).1
  unfolding unblocked weight waits holds count
  unblocked-Latches s true sh l = record {
    exit = omega (arith, l.exit);
    once = λ s'. omega (arith, l.once s');
    held = λ s'. omega (arith, l.held s');
    passed = l.passed;
    sound = l.sound;
  }
  unblocked-Latches s false sh l = record {
    exit = omega (arith, l.exit);
    once = λ s'. omega (arith, l.once s');
    held = λ s'. omega (arith, l.held s');
    passed = l.passed;
    sound = l.sound;
  }

  -- A goroutine that still holds a prerequisite releases it from a latch that is not zero.
  prerequisite_done-Latches :
      (s c n : ℕ) (f : Bool) (cs : List ℕ) (sh : Shared)
      → sh.prerequisites c ≡ n
      → Latches g e w h (stage_routine s (unblocking f (c ∷ cs)) ∷ []) sh
      → Latches g e w h (stage_routine s (unblocking f cs) ∷ []) (prerequisite_done c n sh)
  unfolding prerequisite_done weight waits holds count
  prerequisite_done-Latches s c zero f cs sh eq l = absurd (ground (arith, l.held c))
  prerequisite_done-Latches s c (suc n) f cs sh eq l = record {
    exit = omega (arith, l.exit);
    once = λ s'. omega (arith, l.once s');
    held = λ s'. unfold update in ground (arith, l.held s', eq);
    passed = λ s' p. unfold update in ground (arith, l.passed s' p, eq);
    sound = l.sound;
  }

  cancelled-Latches :
      (s : ℕ) (b : Bool) (sh : Shared)
      → Latches g e w h (stage_routine s waiting ∷ []) sh
      → Keeps (if b then some (failed g s sh) else none)
  unfolding weight holds
  cancelled-Latches s true sh l = failed-Latches s waiting sh (λ s'. refl) refl l
  cancelled-Latches s false sh l = tt

  act-Latches :
      (c : Choice) (r : Routine) (sh : Shared) → Latches g e w h (r ∷ []) sh → Keeps (act g c r sh)
  unfolding act weight waits holds
  act-Latches go_on (stage_routine s spawned) sh l = begin-Latches s (sh.started s) sh refl l
  act-Latches go_on (stage_routine s waiting) sh l =
      execute-Latches s (sh.prerequisites s) sh refl l
  act-Latches see_cancel (stage_routine s waiting) sh l = cancelled-Latches s sh.cancelled sh l
  act-Latches go_on (stage_routine s executing) sh l = record {
    exit = omega (arith, l.exit);
    once = λ s'. omega (arith, l.once s');
    held = λ s'. omega (arith, l.held s');
    passed = l.passed;
    sound = l.sound;
  }
  act-Latches write (stage_routine s executing) sh l = record {
    exit = omega (arith, l.exit);
    once = λ s'. omega (arith, l.once s');
    held = λ s'. omega (arith, l.held s');
    passed = l.passed;
    sound = l.sound;
  }
  act-Latches fail (stage_routine s executing) sh l =
      failed-Latches s executing sh (λ s'. refl) refl l
  act-Latches go_on (stage_routine s (unblocking f [])) sh l = unblocked-Latches s f sh l
  act-Latches go_on (stage_routine s (unblocking f (c ∷ cs))) sh l =
      prerequisite_done-Latches s c (sh.prerequisites c) f cs sh refl l
  act-Latches go_on (stage_routine s (spawning [])) sh l = record {
    exit = omega (arith, l.exit);
    once = λ s'. omega (arith, l.once s');
    held = λ s'. omega (arith, l.held s');
    passed = l.passed;
    sound = l.sound;
  }
  act-Latches go_on (stage_routine s (spawning (c ∷ cs))) sh l = record {
    exit = omega (arith, l.exit);
    once = λ s'. omega (arith, l.once s');
    held = λ s'. omega (arith, l.held s');
    passed = l.passed;
    sound = l.sound;
  }
  act-Latches go_on (stage_routine s leaving) sh l =
      exit_done-Latches (stage_routine s leaving) sh.exit_latch sh refl refl (λ s'. refl) l
  act-Latches go_on writer sh l = exit_done-Latches writer sh.exit_latch sh refl refl (λ s'. refl) l
  act-Latches c r sh l = tt

sum_of-append :
    (f : Routine → ℕ) (xs ys : List Routine) → sum_of f (xs ++ ys) ≡ sum_of f xs + sum_of f ys
sum_of-append f [] ys = omega arith
sum_of-append f (x ∷ xs) ys = omega (arith, sum_of-append f xs ys)

abbrev others : (Routine → ℕ) → List Routine → List Routine → ℕ
others f before after = sum_of f before + sum_of f after

-- A goroutine among others: what the others add is a sum over them.
focus :
    (f : Routine → ℕ) (before rs after : List Routine)
    → sum_of f (before ++ (rs ++ after)) ≡ others f before after + sum_of f rs
focus f before rs after =
    omega (arith, sum_of-append f before (rs ++ after), sum_of-append f rs after)

-- The latches of a whole state.
abbrev pub IsLatched : Graph → State → Type 0
IsLatched g st = Latches g 0 (λ s. 0) (λ s. 0) st.routines st.shared

abbrev Among : Graph → List Routine → List Routine → List Routine → Shared → Type 0
Among g before after rs sh =
    Latches g (others weight before after) (λ s. others (waits s) before after)
      (λ s. others (holds g s) before after) rs sh

focus_on :
    (g : Graph) (before rs after : List Routine) (sh : Shared)
    → Latches g 0 (λ s. 0) (λ s. 0) (before ++ (rs ++ after)) sh
    → Among g before after rs sh
focus_on g before rs after sh l = record {
  exit = omega (arith, l.exit, focus weight before rs after);
  once = λ s. omega (arith, l.once s, focus (waits s) before rs after);
  held = λ s. omega (arith, l.held s, focus (holds g s) before rs after);
  passed = l.passed;
  sound = l.sound;
}

focus_off :
    (g : Graph) (before rs after : List Routine) (sh : Shared)
    → Among g before after rs sh
    → Latches g 0 (λ s. 0) (λ s. 0) (before ++ (rs ++ after)) sh
focus_off g before rs after sh l = record {
  exit = omega (arith, l.exit, focus weight before rs after);
  once = λ s. omega (arith, l.once s, focus (waits s) before rs after);
  held = λ s. omega (arith, l.held s, focus (holds g s) before rs after);
  passed = l.passed;
  sound = l.sound;
}

Step-IsLatched :
    (g : Graph) (k : IsGraph g) (st st' : State) → Step g st st' → IsLatched g st → IsLatched g st'
Step-IsLatched g k _ _ (move before after r c new sh sh' eq) l =
    let kept =
      act-Latches g k (others weight before after) (λ s. others (waits s) before after)
        (λ s. others (holds g s) before after) c r sh (focus_on g before (r ∷ []) after sh l) in
    focus_off g before new after sh' (rw eq at kept)
Step-IsLatched g k _ _ (cancel routines sh) l = record {
  exit = l.exit;
  once = l.once;
  held = l.held;
  passed = l.passed;
  sound = l.sound;
}

sum_below_ap : (n : ℕ) (f : ℕ → ℕ) → sum_below n f ≡ sum_below n (λ p. if false then 0 else f p)
sum_below_ap n f = refl

initial-IsLatched : (g : Graph) → IsLatched g (initial g)
unfolding initial weight waits holds not_begun
initial-IsLatched g = record {
  exit = refl;
  once = λ s. omega arith;
  held = λ s. omega arith;
  passed = λ s p. absurd (omega arith);
  sound = refl;
}

-- In every state that a run can reach, by any interleaving: the exit latch counts the goroutines that
-- live and those that a stage is about to start; a stage waits or has executed at most once, and only
-- if it has begun; the prerequisites of a stage count the links to it of stages that have not begun
-- or not yet released them; a stage that has executed has no prerequisites left; and no latch has
-- become negative.
pub Reachable-IsLatched : (g : Graph) (st : State) → IsGraph g → Reachable g st → IsLatched g st
Reachable-IsLatched g _ k start = initial-IsLatched g
Reachable-IsLatched g st' k (extend {st = st} reach step) =
    Step-IsLatched g k st st' step (Reachable-IsLatched g st k reach)
