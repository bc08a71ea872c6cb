-- ===== src/Forward/Queries/Outcomes.antt =====
-- How `forwardQuery` of cmd/forward/main.go ends, and what a cancellation reaches.
use pbench.Prelude.{
  refl, ◌∙◌, ==_iff, ◌==◌, ℕ, zero, suc, ◌+◌, ◌^◌, ◌≤◌, ◌<◌, ◌≡◌, Option, none, some, List, [], ◌∷◌,
  arith, length, Bool-cases, Option-cases, inl, inr,
}
use pbench.Forward.Queries.{
  Bool, deliver, not_retrieved, excluded, not_sent, sent, false, true, rewritten, is_excluded,
  max_retry, forward_info, ForwardResult, forward_query, Setup, Patterns, QueryInfo, retrieve,
  TargetResult, refused, not_drained, drained, Counts, count_target, count_targets,
}

-- The first of `left` attempts, from `attempt` on, that is answered; or none is.
abbrev pub Retrieved : ℕ → (ℕ → Option QueryInfo) → ℕ → Option QueryInfo → Type 0
Retrieved left answers attempt none = (k : ℕ) → attempt ≤ k → k < attempt + left → answers k ≡ none
Retrieved left answers attempt (some q) =
    (k : ℕ) × (attempt ≤ k)
    × (k < attempt + left)
    × (answers k ≡ some q)
    × ((j : ℕ) → attempt ≤ j → j < k → answers j ≡ none)

retrieve_lem :
    (left : ℕ) (answers : ℕ → Option QueryInfo) (attempt : ℕ)
    → Retrieved left answers attempt (retrieve left answers attempt)
unfolding retrieve
retrieve_lem zero answers attempt = λ k l m. absurd (omega arith)
retrieve_lem (suc left) answers attempt = elim (Option-cases (answers attempt)) [
  | inl e ↦
      rw (e, retrieve)
        (later e (retrieve left answers (suc attempt)) (retrieve_lem left answers (suc attempt)))
  | inr (q, e) ↦
      rw (e, retrieve) (attempt, omega arith, omega arith, e, λ j l m. absurd (omega arith))
]
  where
    at_or_later :
        answers attempt ≡ none
        → (bound : ℕ) → ((k : ℕ) → suc attempt ≤ k → k < bound → answers k ≡ none)
        → (k : ℕ) → attempt ≤ k
        → k < bound
        → answers k ≡ none
    at_or_later e bound h k l m = elim (Bool-cases (k == attempt)) [
      | inl q ↦ let same : k ≡ attempt = (==_iff k attempt).0 q in rw same e
      | inr q ↦ h k (ground arith) m
    ]

    later :
        answers attempt ≡ none
        → (o : Option QueryInfo) → Retrieved left answers (suc attempt) o
        → Retrieved (suc left) answers attempt o
    later e none h = λ k l m. at_or_later e (suc attempt + left) h k l (omega arith)
    later e (some q) (k, l, m, found, before) =
        (k, omega arith, omega arith, found, λ j l' m'. at_or_later e k before j l' m')

count_targets_lem :
    (ts : List TargetResult) (c : Counts)
    → c.successful + c.failed + length ts < 2 ^ 32
    → (count_targets ts c).successful + (count_targets ts c).failed
      ≡ c.successful + c.failed + length ts
unfolding count_targets count_target
count_targets_lem [] c h = omega arith
count_targets_lem (refused ∷ ts) c h =
    let ih = count_targets_lem ts (count_target refused c) (omega arith) in omega arith
count_targets_lem (not_drained ∷ ts) c h =
    let ih = count_targets_lem ts (count_target not_drained c) (omega arith) in omega arith
count_targets_lem (drained n ∷ ts) c h =
    let ih = count_targets_lem ts (count_target (drained n) c) (omega arith) in omega arith

module _ (r : Patterns) (s : Setup) (answers : ℕ → Option QueryInfo)
    (targets : QueryInfo → List TargetResult) where
  -- What the result tells: `q` is the first answer of the source cluster in ten attempts.
  abbrev pub IsAccounted : ForwardResult → Type 0
  IsAccounted not_retrieved = Retrieved max_retry answers 1 none
  IsAccounted excluded =
      (q : QueryInfo) × Retrieved max_retry answers 1 (some q)
      × (is_excluded r s.excludes q.query ≡ true)
  IsAccounted (not_sent q') =
      (q : QueryInfo) × Retrieved max_retry answers 1 (some q)
      × (is_excluded r s.excludes q.query ≡ false)
      × (s.dry_run ≡ true)
      × (q' ≡ rewritten r s q)
  IsAccounted (sent q' c) =
      (q : QueryInfo) × Retrieved max_retry answers 1 (some q)
      × (is_excluded r s.excludes q.query ≡ false)
      × (s.dry_run ≡ false)
      × (q' ≡ rewritten r s q)
      × (c.successful + c.failed ≡ length (targets q'))

  deliver-IsAccounted :
      (q : QueryInfo)
      → ((q : QueryInfo) → length (targets q) < 2 ^ 32)
      → Retrieved max_retry answers 1 (some q)
      → is_excluded r s.excludes q.query ≡ false
      → (b : Bool) → s.dry_run ≡ b
      → IsAccounted (deliver b targets (rewritten r s q))
  unfolding deliver
  deliver-IsAccounted q few h e true d = (q, h, e, d, refl)
  deliver-IsAccounted q few h e false d =
      let ts = targets (rewritten r s q) in
      let bound = few (rewritten r s q) in
      let none_yet : Counts = record { successful = 0; failed = 0 } in
      (q, h, e, d, refl, count_targets_lem ts none_yet (omega arith) ∙ omega arith)

  forward_info-IsAccounted :
      (o : Option QueryInfo)
      → ((q : QueryInfo) → length (targets q) < 2 ^ 32)
      → Retrieved max_retry answers 1 o
      → IsAccounted (forward_info r s targets o)
  unfolding forward_info
  forward_info-IsAccounted none few h = h
  forward_info-IsAccounted (some q) few h = elim (Bool-cases (is_excluded r s.excludes q.query)) [
    | inl e ↦ rw (e, forward_info) (q, h, e)
    | inr e ↦ rw (e, forward_info) (deliver-IsAccounted q few h e s.dry_run refl)
  ]

  -- However it ends, `forwardQuery` tells what happened. It fails only if all of ten attempts to get the
  -- query failed. Otherwise the first answer counts: it is excluded by a pattern, or, with the
  -- replacements and the schema mapping, shown in a dry run, or sent to every target, and then the
  -- successes and failures add up to the targets.
  pub forward_query-IsAccounted :
      ((q : QueryInfo) → length (targets q) < 2 ^ 32)
      → IsAccounted (forward_query r s answers targets)
  unfolding forward_query
  forward_query-IsAccounted few =
      forward_info-IsAccounted (retrieve max_retry answers 1) few (retrieve_lem max_retry answers 1)
