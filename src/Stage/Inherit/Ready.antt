-- ===== src/Stage/Inherit/Ready.antt =====
-- A stage that runs never meets a nil option (stage/stage_utils.go).
use pbench.Prelude.{
  ℕ, ◌<◌, ◌≡◌, refl, true, false, Option, none, some, arith, ◌==◌, inl, inr, Bool-cases, ap, ◌∙◌,
}
use pbench.Stage.Config.{Stage, or_else, run_count}
use pbench.Stage.Inherit.{
  at_least_one_run, with_defaults, set_defaults, inherit_cold, inherit_warm, inherit, propagate_to,
}

abbrev pub Holds {ℓ} : {A : Type ℓ} → Option A → Type 0
Holds none = ⊥
Holds (some a) = Unit

-- The counts are set, and the loop over the runs of a query makes at least one round.
abbrev pub HoldsRuns : Option ℕ → Option ℕ → Type 0
HoldsRuns (some cold) (some warm) = 0 < run_count cold warm
HoldsRuns _ none = ⊥
HoldsRuns none (some warm) = ⊥

-- All that `run` and what it calls dereference.
pub record IsReady (s : Stage) : Type 0 where
  pub random_execution : Holds s.random_execution
  pub no_random_duplicates : Holds s.no_random_duplicates
  pub abort_on_error : Holds s.abort_on_error
  pub save_output : Holds s.save_output
  pub save_column_metadata : Holds s.save_column_metadata
  pub save_json : Holds s.save_json
  pub runs : HoldsRuns s.cold_runs s.warm_runs

-- All but the run counts.
record HasFlags (s : Stage) : Type 0 where
  random_execution : Holds s.random_execution
  no_random_duplicates : Holds s.no_random_duplicates
  abort_on_error : Holds s.abort_on_error
  save_output : Holds s.save_output
  save_column_metadata : Holds s.save_column_metadata
  save_json : Holds s.save_json

run_count_one : run_count 1 0 ≡ 1
unfolding run_count
run_count_one = refl

at_least_one_run-IsReady :
    (s : Stage) (cold warm : ℕ)
    → s.cold_runs ≡ some cold
    → s.warm_runs ≡ some warm
    → HasFlags s
    → (t : Stage) × (at_least_one_run s (some cold) (some warm) ≡ some t)
      × IsReady t
      × (t.propagated ≡ s.propagated)
unfolding at_least_one_run
at_least_one_run-IsReady s cold warm c w h = elim (Bool-cases (run_count cold warm == 0)) [
  | inl e ↦ (
    record s { cold_runs = some 1; warm_runs = some 0 },
    rw e,
    record {
      random_execution = h.random_execution;
      no_random_duplicates = h.no_random_duplicates;
      abort_on_error = h.abort_on_error;
      save_output = h.save_output;
      save_column_metadata = h.save_column_metadata;
      save_json = h.save_json;
      runs = omega (arith, run_count_one);
    },
    refl,
  )
  | inr e ↦ (
    s,
    rw e,
    record {
      random_execution = h.random_execution;
      no_random_duplicates = h.no_random_duplicates;
      abort_on_error = h.abort_on_error;
      save_output = h.save_output;
      save_column_metadata = h.save_column_metadata;
      save_json = h.save_json;
      runs = rw (c, w) (ground arith);
    },
    refl,
  )
]

Holds-or_else {ℓ} : {A : Type ℓ} (o : Option A) (a : A) → Holds (or_else o (some a))
Holds-or_else none a = tt
Holds-or_else (some b) a = tt

with_defaults-HasFlags : (s : Stage) → HasFlags (with_defaults s)
unfolding with_defaults
with_defaults-HasFlags s = record {
  random_execution = Holds-or_else s.random_execution false;
  no_random_duplicates = Holds-or_else s.no_random_duplicates false;
  abort_on_error = Holds-or_else s.abort_on_error false;
  save_output = Holds-or_else s.save_output false;
  save_column_metadata = Holds-or_else s.save_column_metadata false;
  save_json = Holds-or_else s.save_json false;
}

runs-IsReady :
    (s : Stage) (cold warm : Option ℕ)
    → s.cold_runs ≡ cold
    → s.warm_runs ≡ warm
    → Holds cold
    → Holds warm
    → HasFlags s
    → (t : Stage) × (at_least_one_run s cold warm ≡ some t)
      × IsReady t
      × (t.propagated ≡ s.propagated)
runs-IsReady s (some cold) (some warm) c w h k f = at_least_one_run-IsReady s cold warm c w f
runs-IsReady s none warm c w h k f = absurd h
runs-IsReady s (some cold) none c w h k f = absurd k

-- `setDefaults` never fails, and leaves a stage with all that a run dereferences.
pub set_defaults-IsReady : (s : Stage) → (t : Stage) × (set_defaults s ≡ some t) × IsReady t
unfolding set_defaults with_defaults
set_defaults-IsReady s =
    let (t, e, r, _) =
      runs-IsReady (with_defaults s) (or_else s.cold_runs (some 0)) (or_else s.warm_runs (some 0))
        refl refl (Holds-or_else s.cold_runs 0) (Holds-or_else s.warm_runs 0)
        (with_defaults-HasFlags s) in
    (t, e, r)

or_else-Holds {ℓ} : {A : Type ℓ} (o p : Option A) → Holds o → or_else o p ≡ o
or_else-Holds none p h = absurd h
or_else-Holds (some a) p h = refl

HoldsRuns-Holds : (cold warm : Option ℕ) → HoldsRuns cold warm → Holds cold × Holds warm
HoldsRuns-Holds (some cold) (some warm) h = (tt, tt)
HoldsRuns-Holds none none h = absurd h
HoldsRuns-Holds (some cold) none h = absurd h
HoldsRuns-Holds none (some warm) h = absurd h

with_defaults-IsReady : (s : Stage) → IsReady s → with_defaults s ≡ s
unfolding with_defaults
with_defaults-IsReady s h =
    let (c, w) = HoldsRuns-Holds s.cold_runs s.warm_runs h.runs in
    λ i. record s {
      random_execution = or_else-Holds s.random_execution (some false) h.random_execution i;
      no_random_duplicates =
          or_else-Holds s.no_random_duplicates (some false) h.no_random_duplicates i;
      abort_on_error = or_else-Holds s.abort_on_error (some false) h.abort_on_error i;
      save_output = or_else-Holds s.save_output (some false) h.save_output i;
      save_column_metadata =
          or_else-Holds s.save_column_metadata (some false) h.save_column_metadata i;
      save_json = or_else-Holds s.save_json (some false) h.save_json i;
      cold_runs = or_else-Holds s.cold_runs (some 0) c i;
      warm_runs = or_else-Holds s.warm_runs (some 0) w i;
    }

at_least_one_run_again :
    (s : Stage) (cold warm : Option ℕ) → HoldsRuns cold warm → at_least_one_run s cold warm ≡ some s
unfolding at_least_one_run
at_least_one_run_again s (some cold) (some warm) h = ground arith
at_least_one_run_again s none none h = absurd h
at_least_one_run_again s (some cold) none h = absurd h
at_least_one_run_again s none (some warm) h = absurd h

-- A stage that is ready is left as it is.
pub set_defaults_again : (s : Stage) → IsReady s → set_defaults s ≡ some s
unfolding set_defaults
set_defaults_again s h =
    ap (λ t. at_least_one_run t t.cold_runs t.warm_runs) (with_defaults-IsReady s h)
    ∙ at_least_one_run_again s s.cold_runs s.warm_runs h.runs

kept {ℓ} : {A : Type ℓ} (o p : Option A) → Holds p → Holds (or_else o p)
kept none p h = h
kept (some a) p h = tt

inherit-HasFlags : (s next : Stage) → IsReady s → HasFlags (inherit s next)
unfolding inherit
inherit-HasFlags s next h = record {
  random_execution = kept next.random_execution s.random_execution h.random_execution;
  no_random_duplicates =
      kept next.no_random_duplicates s.no_random_duplicates h.no_random_duplicates;
  abort_on_error = kept next.abort_on_error s.abort_on_error h.abort_on_error;
  save_output = kept next.save_output s.save_output h.save_output;
  save_column_metadata =
      kept next.save_column_metadata s.save_column_metadata h.save_column_metadata;
  save_json = kept next.save_json s.save_json h.save_json;
}

inherit-Holds :
    (cold warm c w : Option ℕ)
    → HoldsRuns cold warm
    → Holds (inherit_cold cold c w) × Holds (inherit_warm warm c w)
unfolding inherit_cold inherit_warm
inherit-Holds cold warm none none h = HoldsRuns-Holds cold warm h
inherit-Holds cold warm none (some w) h = (tt, tt)
inherit-Holds cold warm (some c) none h = (tt, tt)
inherit-Holds cold warm (some c) (some w) h = (tt, tt)

-- From a stage that is ready, propagation never dereferences nil, and makes the next stage ready.
pub propagate_to-IsReady :
    (s next : Stage)
    → IsReady s
    → next.propagated ≡ false
    → (t : Stage) × (propagate_to s next ≡ some t) × IsReady t × (t.propagated ≡ true)
unfolding propagate_to inherit
propagate_to-IsReady s next h fresh =
    let (c, w) = inherit-Holds s.cold_runs s.warm_runs next.cold_runs next.warm_runs h.runs in
    rw fresh (runs-IsReady (inherit s next) _ _ refl refl c w (inherit-HasFlags s next h))

at_least_one_run_propagated :
    (s : Stage) (cold warm : Option ℕ) (t : Stage)
    → at_least_one_run s cold warm ≡ some t
    → t.propagated ≡ s.propagated
unfolding at_least_one_run
at_least_one_run_propagated s (some cold) (some warm) t h = ground arith
at_least_one_run_propagated s (some cold) none t h = cc
at_least_one_run_propagated s none warm t h = cc

propagate_to_propagated : (s next t : Stage) → propagate_to s next ≡ some t → t.propagated ≡ true
unfolding propagate_to
propagate_to_propagated s next t h = elim (Bool-cases next.propagated) [
  | inl e ↦ let same : next ≡ t = cc (simp e at h) in rw (← same) e
  | inr e ↦
      at_least_one_run_propagated (inherit s next) _ _ t (simp e at h) ∙ (unfold inherit in refl)
]

propagate_to_done : (s t : Stage) → t.propagated ≡ true → propagate_to s t ≡ some t
unfolding propagate_to
propagate_to_done s t h = simp h

-- Only the first parent that finishes hands its state on: a later one changes nothing.
pub propagate_to_once :
    (s s' next t : Stage) → propagate_to s next ≡ some t → propagate_to s' t ≡ some t
propagate_to_once s s' next t h = propagate_to_done s' t (propagate_to_propagated s next t h)
