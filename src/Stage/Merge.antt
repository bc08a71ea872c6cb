-- ===== src/Stage/Merge.antt =====
-- `MergeWith` of stage/stage_utils.go: the stages named on the command line become one main stage.
use pbench.Prelude.{
  ◌≡◌, refl, Option, none, some, List, [], ◌∷◌, ◌++◌, Text, Map, UniqueKeys, lookup, insert, delete,
  lookup-insert, lookup-delete, text_eq, text_eq_iff, if◌then◌else◌, ◌∙◌, Bool-cases, inl, inr, ap,
  sym, append-nil, append_assoc, All, Bool, ℕ,
}
use pbench.Stage.Config.{Stage, or_else}

module _ {ℓ} {V : Type ℓ} where
  -- `for k, v := range other`: a nil value deletes the key, any other value is set.
  pub merge_map : Map (Option V) → Map (Option V) → Map (Option V)
  merge_map m [] = m
  merge_map m ((k, some v) ∷ other) = merge_map (insert k (some v) m) other
  merge_map m ((k, none) ∷ other) = merge_map (delete k m) other

  -- What a key holds where `new` may override `old`.
  abbrev pub override : Option (Option V) → Option (Option V) → Option (Option V)
  override old none = old
  override old (some none) = none
  override old (some (some v)) = some (some v)

  merge_entry :
      (k j : Text) (v : Option V) (m other : Map (Option V)) (held : Option (Option V))
      → lookup j other ≡ none
      → held ≡ (if text_eq j k then override (lookup k m) (some v) else lookup k m)
      → override held (lookup k other) ≡ override (lookup k m) (lookup k ((j, v) ∷ other))
  unfolding lookup
  merge_entry k j v m other held fresh h = elim (Bool-cases (text_eq j k)) [
    | inl e ↦
        let absent : lookup k other ≡ none = rw ((text_eq_iff j k).0 e) at fresh in
        rw (e, absent) (rw e at h)
    | inr e ↦ rw e (ap (λ o. override o (lookup k other)) (rw e at h))
  ]

  -- Whatever the order of the entries, each key is overridden on its own.
  pub lookup-merge_map :
      (k : Text) (m other : Map (Option V))
      → UniqueKeys other
      → lookup k (merge_map m other) ≡ override (lookup k m) (lookup k other)
  unfolding merge_map
  lookup-merge_map k m [] u = unfold lookup in refl
  lookup-merge_map k m ((j, some v) ∷ other) (fresh, u) =
      lookup-merge_map k (insert j (some v) m) other u
      ∙ merge_entry k j (some v) m other _ fresh (lookup-insert j k (some v) m)
  lookup-merge_map k m ((j, none) ∷ other) (fresh, u) =
      lookup-merge_map k (delete j m) other u
      ∙ merge_entry k j none m other _ fresh (lookup-delete j k m)

-- `MergeWith`: the receiver after the call.
pub merge_with : Stage → Stage → Stage
unfolding merge_map
merge_with s other = record s {
  id = other.id;
  catalog = or_else other.catalog s.catalog;
  schema = or_else other.schema s.schema;
  session_params = merge_map s.session_params other.session_params;
  time_zone = or_else other.time_zone s.time_zone;
  queries = s.queries ++ other.queries;
  query_files = s.query_files ++ other.query_files;
  expected_row_counts = merge_map s.expected_row_counts other.expected_row_counts;
  random_execution = or_else other.random_execution s.random_execution;
  randomly_execute_until = or_else other.randomly_execute_until s.randomly_execute_until;
  no_random_duplicates = or_else other.no_random_duplicates s.no_random_duplicates;
  cold_runs = or_else other.cold_runs s.cold_runs;
  warm_runs = or_else other.warm_runs s.warm_runs;
  start_on_new_client = other.start_on_new_client;
  abort_on_error = or_else other.abort_on_error s.abort_on_error;
  save_output = or_else other.save_output s.save_output;
  save_column_metadata = or_else other.save_column_metadata s.save_column_metadata;
  save_json = or_else other.save_json s.save_json;
  stream_count = or_else other.stream_count s.stream_count;
  next_stage_paths = s.next_stage_paths ++ other.next_stage_paths;
  base_dir = other.base_dir;
  pre_stage_shell_scripts = s.pre_stage_shell_scripts ++ other.pre_stage_shell_scripts;
  pre_query_shell_scripts = s.pre_query_shell_scripts ++ other.pre_query_shell_scripts;
  post_query_shell_scripts = s.post_query_shell_scripts ++ other.post_query_shell_scripts;
  post_stage_shell_scripts = s.post_stage_shell_scripts ++ other.post_stage_shell_scripts;
  pre_query_cycle_shell_scripts =
      s.pre_query_cycle_shell_scripts ++ other.pre_query_cycle_shell_scripts;
  post_query_cycle_shell_scripts =
      s.post_query_cycle_shell_scripts ++ other.post_query_cycle_shell_scripts;
}

-- Merging a list of stages into the main stage, as `cmd/run` does.
pub merge_all : Stage → List Stage → Stage
unfolding merge_with
merge_all s [] = s
merge_all s (other ∷ others) = merge_all (merge_with s other) others

-- The last stage that sets an option, and all queries in the order of the command line.
abbrev pub last_set {ℓ} : {A : Type ℓ} → (Stage → Option A) → Option A → List Stage → Option A
last_set f o [] = o
last_set f o (s ∷ others) = last_set f (or_else (f s) o) others

abbrev pub gather {ℓ} : {A : Type ℓ} → (Stage → List A) → List Stage → List A
gather f [] = []
gather f (s ∷ others) = f s ++ gather f others

-- The fields that gather what every stage has.
abbrev pub list_fields : List (Stage → List Text)
list_fields =
    (λ s. s.queries)
    ∷ (λ s. s.query_files)
    ∷ (λ s. s.next_stage_paths)
    ∷ (λ s. s.pre_stage_shell_scripts)
    ∷ (λ s. s.pre_query_cycle_shell_scripts)
    ∷ (λ s. s.pre_query_shell_scripts)
    ∷ (λ s. s.post_query_shell_scripts)
    ∷ (λ s. s.post_query_cycle_shell_scripts)
    ∷ (λ s. s.post_stage_shell_scripts)
    ∷ []

-- The fields that a later stage sets anew.
abbrev pub text_options : List (Stage → Option Text)
text_options =
    (λ s. s.catalog) ∷ (λ s. s.schema) ∷ (λ s. s.time_zone) ∷ (λ s. s.randomly_execute_until) ∷ []

abbrev pub flag_options : List (Stage → Option Bool)
flag_options =
    (λ s. s.random_execution)
    ∷ (λ s. s.no_random_duplicates)
    ∷ (λ s. s.abort_on_error)
    ∷ (λ s. s.save_output)
    ∷ (λ s. s.save_column_metadata)
    ∷ (λ s. s.save_json)
    ∷ []

abbrev pub count_options : List (Stage → Option ℕ)
count_options = (λ s. s.cold_runs) ∷ (λ s. s.warm_runs) ∷ (λ s. s.stream_count) ∷ []

-- `f` of the merged stage is that of every stage, in order.
abbrev pub Gathers {ℓ} : {A : Type ℓ} → Stage → List Stage → (Stage → List A) → Type ℓ
Gathers s others f = f (merge_all s others) ≡ f s ++ gather f others

-- `f` of the merged stage is that of the last stage that sets it.
abbrev pub Sets {ℓ} : {A : Type ℓ} → Stage → List Stage → (Stage → Option A) → Type ℓ
Sets s others f = f (merge_all s others) ≡ last_set f (f s) others

gathered {ℓ} :
    {A : Type ℓ} (f : Stage → List A)
    → ((s other : Stage) → f (merge_with s other) ≡ f s ++ f other)
    → (s : Stage) (others : List Stage) → Gathers s others f
unfolding merge_all
gathered f h s [] = sym (append-nil (f s))
gathered f h s (other ∷ others) =
    gathered f h (merge_with s other) others
    ∙ ap (λ xs. xs ++ gather f others) (h s other)
    ∙ append_assoc (f s) (f other) (gather f others)

set_last {ℓ} :
    {A : Type ℓ} (f : Stage → Option A)
    → ((s other : Stage) → f (merge_with s other) ≡ or_else (f other) (f s))
    → (s : Stage) (others : List Stage) → Sets s others f
unfolding merge_all
set_last f h s [] = refl
set_last f h s (other ∷ others) =
    set_last f h (merge_with s other) others ∙ ap (λ o. last_set f o others) (h s other)

All-map {ℓ κ} :
    {A : Type ℓ} {P Q : A → Type κ} (xs : List A) → ((x : A) → P x → Q x) → All P xs → All Q xs
All-map [] f h = tt
All-map (x ∷ xs) f (p, ps) = (f x p, All-map xs f ps)

-- What a run executes: the queries, the query files, the next stages and the six lists of scripts are
-- those of every merged stage, in order, and each option that is a pointer has the value of the last
-- stage that sets it.
pub merge_all_lem :
    (s : Stage) (others : List Stage)
    → All (Gathers s others) list_fields
      × All (Sets s others) text_options
      × All (Sets s others) flag_options
      × All (Sets s others) count_options
unfolding merge_with
merge_all_lem s others = (
  All-map list_fields (λ f h. gathered f h s others)
      (
        λ s o. refl,
        (
          λ s o. refl,
          (
            λ s o. refl,
            (
              λ s o. refl,
              (λ s o. refl, (λ s o. refl, (λ s o. refl, (λ s o. refl, (λ s o. refl, tt))))),
            ),
          ),
        ),
      ),
  All-map text_options (λ f h. set_last f h s others)
      (λ s o. refl, (λ s o. refl, (λ s o. refl, (λ s o. refl, tt)))),
  All-map flag_options (λ f h. set_last f h s others)
      (λ s o. refl, (λ s o. refl, (λ s o. refl, (λ s o. refl, (λ s o. refl, (λ s o. refl, tt)))))),
  All-map count_options (λ f h. set_last f h s others)
      (λ s o. refl, (λ s o. refl, (λ s o. refl, tt))),
)

-- Each session parameter and each row-count key of a merged stage is the other stage's, is deleted
-- where that one has null, and is kept where that one does not name it.
pub lookup-merge_with :
    (s other : Stage) (k : Text)
    → UniqueKeys other.session_params
    → UniqueKeys other.expected_row_counts
    → (lookup k (merge_with s other).session_params
        ≡ override (lookup k s.session_params) (lookup k other.session_params))
      × (lookup k (merge_with s other).expected_row_counts
          ≡ override (lookup k s.expected_row_counts) (lookup k other.expected_row_counts))
unfolding merge_with
lookup-merge_with s other k u u' = (
  lookup-merge_map k s.session_params other.session_params u,
  lookup-merge_map k s.expected_row_counts other.expected_row_counts u',
)
