-- ===== src/Stage/Inherit.antt =====
-- `setDefaults` and `propagateStates` of stage/stage_utils.go: what a stage has when it runs, and what
-- it hands to the stages behind it. `none` stands for a dereference of a nil pointer.
pub mod Ready
pub mod Params
use pbench.Prelude.{
  ℕ, zero, suc, ◌+◌, ◌^◌, ◌<◌, ◌≡◌, ◌≢◌, refl, Bool, true, false, Option, none, some, List, [], ◌∷◌,
  arith, Text, Map, UniqueKeys, lookup, insert, lookup-insert, text_eq, text_eq_iff, ◌==◌,
  if◌then◌else◌, ◌⊎◌, inl, inr, Bool-cases, ap, ◌∙◌,
}
use pbench.Stage.Config.{Stage, empty_stage, or_else, run_count}

-- `if *s.ColdRuns+*s.WarmRuns <= 0 { s.ColdRuns = 1; s.WarmRuns = 0 }`
at_least_one_run : Stage → Option ℕ → Option ℕ → Option Stage
at_least_one_run s (some cold) (some warm) =
    some
      (if run_count cold warm == 0 then record s { cold_runs = some 1; warm_runs = some 0 } else s)
at_least_one_run s (some cold) none = none
at_least_one_run s none warm = none

with_defaults : Stage → Stage
with_defaults s = record s {
  random_execution = or_else s.random_execution (some false);
  no_random_duplicates = or_else s.no_random_duplicates (some false);
  abort_on_error = or_else s.abort_on_error (some false);
  save_output = or_else s.save_output (some false);
  save_column_metadata = or_else s.save_column_metadata (some false);
  save_json = or_else s.save_json (some false);
  cold_runs = or_else s.cold_runs (some 0);
  warm_runs = or_else s.warm_runs (some 0);
}

pub set_defaults : Stage → Option Stage
unfolding at_least_one_run with_defaults
set_defaults s = let t = with_defaults s in at_least_one_run t t.cold_runs t.warm_runs

-- The loop over `s.SessionParams`: a nil value is not handed on, and a key of the child stays.
pub set_missing : Text → Text → Option (Option Text) → Map (Option Text) → Map (Option Text)
set_missing k v (some _) child = child
set_missing k v none child = insert k (some v) child

pub inherit_params : Map (Option Text) → Map (Option Text) → Map (Option Text)
unfolding set_missing
inherit_params [] child = child
inherit_params ((k, none) ∷ params) child = inherit_params params child
inherit_params ((k, some v) ∷ params) child =
    inherit_params params (set_missing k v (lookup k child) child)

-- Both counts are inherited together: a child that sets one of them gets zero for the other.
inherit_cold : Option ℕ → Option ℕ → Option ℕ → Option ℕ
inherit_cold parent none none = parent
inherit_cold parent none (some w) = some 0
inherit_cold parent (some c) w = some c

inherit_warm : Option ℕ → Option ℕ → Option ℕ → Option ℕ
inherit_warm parent none none = parent
inherit_warm parent (some c) none = some 0
inherit_warm parent c (some w) = some w

inherit : Stage → Stage → Stage
unfolding inherit_params inherit_cold inherit_warm
inherit s next = record next {
  catalog = or_else next.catalog s.catalog;
  schema = or_else next.schema s.schema;
  time_zone = or_else next.time_zone s.time_zone;
  random_execution = or_else next.random_execution s.random_execution;
  randomly_execute_until = or_else next.randomly_execute_until s.randomly_execute_until;
  no_random_duplicates = or_else next.no_random_duplicates s.no_random_duplicates;
  session_params = inherit_params s.session_params next.session_params;
  cold_runs = inherit_cold s.cold_runs next.cold_runs next.warm_runs;
  warm_runs = inherit_warm s.warm_runs next.cold_runs next.warm_runs;
  abort_on_error = or_else next.abort_on_error s.abort_on_error;
  save_output = or_else next.save_output s.save_output;
  save_column_metadata = or_else next.save_column_metadata s.save_column_metadata;
  save_json = or_else next.save_json s.save_json;
  states = s.states;
  client = s.client;
  propagated = true;
}

-- One round of the loop of `propagateStates`, under `propagateOnce.Do`.
unfoldable pub propagate_to : Stage → Stage → Option Stage
unfolding inherit at_least_one_run
propagate_to s next =
    let t = inherit s next in
    let inherited = at_least_one_run t t.cold_runs t.warm_runs in
    if next.propagated then some next else inherited

cons_stage : Stage → Option (List Stage) → Option (List Stage)
cons_stage s none = none
cons_stage s (some rest) = some (s ∷ rest)

and_then : Option Stage → Option (List Stage) → Option (List Stage)
unfolding cons_stage
and_then none rest = none
and_then (some s) rest = cons_stage s rest

-- `propagateStates`: the next stages after the call.
pub propagate_states : Stage → List Stage → Option (List Stage)
unfolding propagate_to and_then
propagate_states s [] = some []
propagate_states s (next ∷ nexts) = and_then (propagate_to s next) (propagate_states s nexts)
