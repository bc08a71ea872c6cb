-- ===== src/Forward/Queries.antt =====
-- `forwardQuery` and `checkAndCancelQuery` of cmd/forward/main.go, and the patterns that `Run` compiles.
-- Package regexp and the clusters are parameters.
pub mod Outcomes
use pbench.Prelude.{
  ℕ, zero, suc, ◌+◌, ◌%◌, ◌^◌, ◌≡◌, refl, Bool, true, false, ◌||◌, Option, none, some, List, [],
  ◌∷◌, ◌++◌, Text, Map, lookup, insert, delete, text_eq, if◌then◌else◌,
}
use pbench.Forward.Poll.{max_retry}

pub record Patterns : Type 0 where
  pub compiles : Text → Bool
  pub matches : Text → Text → Bool
  pub replace_all : Text → Text → Text → Text

module _ (r : Patterns) where
  open r use {compiles, matches, replace_all}

  -- The exclude patterns that compile.
  pub exclude_patterns : List Text → List Text
  exclude_patterns [] = []
  exclude_patterns (p ∷ ps) =
      let rest = exclude_patterns ps in if compiles p then p ∷ rest else rest

  -- The pairs of a pattern that compiles and its replacement; one without a partner is ignored.
  pub replace_patterns : List Text → List (Text × Text)
  replace_patterns [] = []
  replace_patterns (p ∷ []) = []
  replace_patterns (p ∷ s ∷ rest) =
      let pairs = replace_patterns rest in if compiles p then (p, s) ∷ pairs else pairs

  pub is_excluded : List Text → Text → Bool
  is_excluded [] query = false
  is_excluded (p ∷ ps) query = matches p query || is_excluded ps query

  pub replaced : List (Text × Text) → Text → Text
  replaced [] query = query
  replaced ((p, s) ∷ ps) query = replaced ps (replace_all p s query)

pub schema_mappings : List Text → Map Text → Map Text
schema_mappings [] m = m
schema_mappings (from ∷ []) m = m
schema_mappings (from ∷ to ∷ rest) m = schema_mappings rest (insert from to m)

pub mapped_schema : Map Text → Option Text → Option Text
mapped_schema m none = none
mapped_schema m (some schema) = elim (lookup schema m) [ none ↦ some schema | some s ↦ some s ]

-- What is used of a `QueryInfo`.
pub record QueryInfo : Type 0 where
  pub query_id : Text
  pub query : Text
  pub catalog : Option Text
  pub schema : Option Text
  pub session_properties : Text

-- The loop over the attempts: `answers` is what the source cluster says at each.
pub retrieve : ℕ → (ℕ → Option QueryInfo) → ℕ → Option QueryInfo
retrieve zero answers attempt = none
retrieve (suc left) answers attempt = elim (answers attempt) [
  | none ↦ retrieve left answers (suc attempt)
  | some info ↦ some info
]

-- What a target cluster makes of the query.
pub data TargetResult : Type 0 where
  refused : TargetResult
  not_drained : TargetResult
  drained : ℕ → TargetResult

pub record Counts : Type 0 where
  pub successful : ℕ
  pub failed : ℕ

pub count_target : TargetResult → Counts → Counts
count_target refused c = record c { failed = (c.failed + 1) % 2 ^ 32 }
count_target not_drained c = record c { failed = (c.failed + 1) % 2 ^ 32 }
count_target (drained n) c = record c { successful = (c.successful + 1) % 2 ^ 32 }

-- The targets in the order in which their goroutines end.
pub count_targets : List TargetResult → Counts → Counts
unfolding count_target
count_targets [] c = c
count_targets (t ∷ ts) c = count_targets ts (count_target t c)

pub record Setup : Type 0 where
  pub excludes : List Text
  pub replacements : List (Text × Text)
  pub mappings : Map Text
  pub dry_run : Bool

pub data ForwardResult : Type 0 where
  not_retrieved : ForwardResult
  excluded : ForwardResult
  not_sent : QueryInfo → ForwardResult
  sent : QueryInfo → Counts → ForwardResult

-- In a dry run nothing is sent.
pub deliver : Bool → (QueryInfo → List TargetResult) → QueryInfo → ForwardResult
unfolding count_targets
deliver true targets q = not_sent q
deliver false targets q = sent q (count_targets (targets q) (record { successful = 0; failed = 0 }))

module _ (r : Patterns) (s : Setup) where
  -- The query that is sent.
  pub rewritten : QueryInfo → QueryInfo
  unfolding replaced mapped_schema
  rewritten q = record q {
    query = replaced r s.replacements q.query;
    schema = mapped_schema s.mappings q.schema;
  }

  pub forward_info : (QueryInfo → List TargetResult) → Option QueryInfo → ForwardResult
  unfolding rewritten deliver is_excluded
  forward_info targets none = not_retrieved
  forward_info targets (some q) =
      if is_excluded r s.excludes q.query then excluded else deliver s.dry_run targets (rewritten q)

  -- `forwardQuery`
  unfoldable pub forward_query :
      (ℕ → Option QueryInfo) → (QueryInfo → List TargetResult) → ForwardResult
  unfolding forward_info retrieve
  forward_query answers targets = forward_info targets (retrieve max_retry answers 1)

-- `forwarded` and `failedToForward`.
pub record Totals : Type 0 where
  pub forwarded : ℕ
  pub failed_to_forward : ℕ

pub count_result : ForwardResult → Totals → Totals
count_result not_retrieved t = record t { failed_to_forward = (t.failed_to_forward + 1) % 2 ^ 32 }
count_result excluded t = t
count_result (not_sent q) t = t
count_result (sent q c) t = record t { forwarded = (t.forwarded + 1) % 2 ^ 32 }

-- `runningQueriesCacheMap`: for each running query the next address on each target, once it is known.
abbrev pub Cache : Type 0
Cache = Map (List (Option Text))

-- The addresses that `checkAndCancelQuery` cancels.
pub addresses : List (Option Text) → List Text
addresses [] = []
addresses (none ∷ entries) = addresses entries
addresses (some [] ∷ entries) = addresses entries
addresses (some (c ∷ s) ∷ entries) = (c ∷ s) ∷ addresses entries

pub cancelled : Cache → Text → List Text
unfolding addresses
cancelled cache id = elim (lookup id cache) [ none ↦ [] | some entries ↦ addresses entries ]

abbrev nothing_known : ℕ → List (Option Text)
nothing_known zero = []
nothing_known (suc n) = none ∷ nothing_known n

-- A query is entered before its goroutines start, with a place for each target.
pub enter : Text → ℕ → Cache → Cache
enter id targets cache = insert id (nothing_known targets) cache

pub set_at : ℕ → Text → List (Option Text) → List (Option Text)
set_at i uri [] = []
set_at zero uri (e ∷ entries) = some uri ∷ entries
set_at (suc i) uri (e ∷ entries) = e ∷ set_at i uri entries

-- A goroutine enters the address on its target; the slice is no longer in the map when it is removed.
pub know : Text → ℕ → Text → Cache → Cache
unfolding set_at
know id i uri cache = elim (lookup id cache) [
  | none ↦ cache
  | some entries ↦ insert id (set_at i uri entries) cache
]

pub leave : Text → Cache → Cache
leave id cache = delete id cache
