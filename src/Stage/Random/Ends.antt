-- ===== src/Stage/Random/Ends.antt =====
-- `runRandomly` of stage/stage.go ends: it executes as often as its count says, and never panics.
use pbench.Prelude.{
  ℕ, zero, suc, ◌+◌, ◌-◌, ◌<◌, ◌≤◌, ◌≡◌, refl, Bool, true, false, Option, none, some, List, [], ◌∷◌,
  Text, length, All, get_elem?, ltb, leb, arith, Bool-cases, inl, inr,
}
use pbench.Prelude.Int.{pos}
use pbench.Prelude.Atoi.{atoi}
use pbench.Stage.Config.{Stage}
use pbench.Stage.Queries.{RunError, Outside, Run}
use pbench.Stage.Sequence.{Sources}
use pbench.Stage.Sequence.Files.{Same, run_query_file-Same}
use pbench.Stage.Random.{
  Chance, Until, times, continue_execution, Ended, ended, panicked, out_of_rounds, take_first,
  next_index, no_duplicates, after_batch, run_inline, run_file, run_index, picked, total_queries,
  round, random_loop, read_until, started, with_until, run_randomly,
}

some_elem {ℓ} :
    {A : Type ℓ} (xs : List A) (i : ℕ) → i < length xs → (a : A) × (get_elem? xs i ≡ some a)
some_elem [] i h = absurd (omega arith)
some_elem (x ∷ xs) zero h = (x, refl)
some_elem (x ∷ xs) (suc i) h = some_elem xs i (omega arith)

module _ (o : Outside) (f : Sources o.World) (chance : Chance o.World)
    (perm_below : (n : ℕ) (w : o.World) → All (λ i. i < n) (chance.perm n w).0)
    (perm_length : (n : ℕ) (w : o.World) → length (chance.perm n w).0 ≡ n)
    (intn_below : (n : ℕ) (w : o.World) → 0 < n → (chance.intn n w).0 < n) where
  open o use {World}

  abbrev pub IsEnded : Ended World → Type 0
  IsEnded (ended e s r) = Unit
  IsEnded panicked = ⊥
  IsEnded out_of_rounds = ⊥

  abbrev EndsFrom : Stage → (Stage → Run World → Ended World) → Type 0
  EndsFrom s rest = (t : Stage) (r : Run World) → Same s t → IsEnded (rest t r)

  after_batch-IsEnded :
      (s : Stage) (a : Option RunError × Stage × Run World) (rest : Stage → Run World → Ended World)
      → Same s a.1
      → EndsFrom s rest
      → IsEnded (after_batch o f chance a rest)
  unfolding after_batch
  after_batch-IsEnded s (some e, t, r) rest h k = tt
  after_batch-IsEnded s (none, t, r) rest h k = k t r h

  run_index-IsEnded :
      (s : Stage) (i idx : ℕ) (r : Run World) (rest : Stage → Run World → Ended World)
      → idx < total_queries o f chance s
      → EndsFrom s rest
      → IsEnded (run_index o f chance s i idx r rest)
  unfolding run_index total_queries run_inline run_file
  run_index-IsEnded s i idx r rest h k = elim (Bool-cases (ltb idx (length s.queries))) [
    | inl e ↦
        let (text, found) = some_elem s.queries idx (ground arith) in
        rw (e, found) (after_batch-IsEnded s _ rest (refl, refl) k)
    | inr e ↦
        let (file, found) = some_elem s.query_files (idx - length s.queries) (ground arith) in
        rw (e, found) (after_batch-IsEnded s _ rest (run_query_file-Same o f s file _ r) k)
  ]

  -- An index in range, and more of them.
  abbrev Picks : ℕ → Option (ℕ × List ℕ × World) → Type 0
  Picks total none = ⊥
  Picks total (some (i, indices, w)) = (i < total) × All (λ j. j < total) indices

  take_first-Picks :
      (total : ℕ) (a : List ℕ × World)
      → 0 < length a.0
      → All (λ j. j < total) a.0
      → Picks total (take_first o f chance a)
  unfolding take_first
  take_first-Picks total ([], w) h k = absurd (omega arith)
  take_first-Picks total (i ∷ indices, w) h k = k

  next_index-Picks :
      (b : Bool) (total : ℕ) (indices : List ℕ) (w : World)
      → 0 < total
      → All (λ j. j < total) indices
      → Picks total (next_index o f chance b total indices w)
  unfolding next_index
  next_index-Picks true total (i ∷ indices) w h k = k
  next_index-Picks true total [] w h k =
      take_first-Picks total (chance.perm total w) (omega (arith, perm_length total w))
        (perm_below total w)
  next_index-Picks false zero indices w h k = absurd (omega arith)
  next_index-Picks false (suc n) indices w h k = (intn_below (suc n) w h, k)

  picked-IsEnded :
      (skip i : ℕ) (s : Stage) (p : Option (ℕ × List ℕ × World)) (r : Run World)
      (rest : List ℕ → Stage → Run World → Ended World)
      → Picks (total_queries o f chance s) p
      → ((indices : List ℕ)
          → All (λ j. j < total_queries o f chance s) indices
          → EndsFrom s (rest indices))
      → IsEnded (picked o f chance skip i s p r rest)
  unfolding picked
  picked-IsEnded skip i s none r rest h k = absurd h
  picked-IsEnded skip i s (some (idx, indices, w)) r rest (h, hs) k =
      elim (Bool-cases (leb i skip)) [
        | inl e ↦ rw e (k indices hs s (record r { world = w }) (refl, refl))
        | inr e ↦
            rw e
              (run_index-IsEnded s i idx (record r { world = w }) (rest indices) h (k indices hs))
      ]

  round-IsEnded :
      (until : Until) (skip i : ℕ) (indices : List ℕ) (s : Stage) (a : Bool × World) (r : Run World)
      (rest : List ℕ → Stage → Run World → Ended World)
      → 0 < total_queries o f chance s
      → All (λ j. j < total_queries o f chance s) indices
      → (a.0 ≡ true
          → (indices : List ℕ) → All (λ j. j < total_queries o f chance s) indices
          → EndsFrom s (rest indices))
      → IsEnded (round o f chance until skip i indices s a r rest)
  unfolding round
  round-IsEnded until skip i indices s (false, w) r rest h hs k = tt
  round-IsEnded until skip i indices s (true, w) r rest h hs k =
      picked-IsEnded skip i s _ r rest
        (next_index-Picks (no_duplicates o f chance s) (total_queries o f chance s) indices w h hs)
        (k refl)

  total-Same : (s t : Stage) → Same s t → total_queries o f chance t ≡ total_queries o f chance s
  unfolding total_queries
  total-Same s t (q, p) = λ i. length (q i) + length (p i)

  continues :
      (n i : ℕ) (w : World) → (continue_execution o f chance (times (pos n)) i w).0 ≡ true → i ≤ n
  unfolding continue_execution
  continues n i w h = ground arith

  random_loop-IsEnded :
      (rounds n skip i : ℕ) (indices : List ℕ) (s : Stage) (r : Run World)
      → 0 < total_queries o f chance s
      → All (λ j. j < total_queries o f chance s) indices
      → i ≤ n + 1
      → n + 2 ≤ rounds + i
      → IsEnded (random_loop o f chance rounds (times (pos n)) skip i indices s r)
  unfolding random_loop
  random_loop-IsEnded zero n skip i indices s r h hs a b = absurd (omega arith)
  random_loop-IsEnded (suc rounds) n skip i indices s r h hs a b =
      round-IsEnded (times (pos n)) skip i indices s
        (continue_execution o f chance (times (pos n)) i r.world) r
        (random_loop o f chance rounds (times (pos n)) skip (suc i)) h hs
        (λ go js ks t r' same.
          let total = total-Same s t same in
          random_loop-IsEnded rounds n skip (suc i) js t r' (rw total h) (rw total ks)
            (ground (arith, continues n i r.world go)) (omega arith))

  with_until-IsEnded :
      (n rounds skip : ℕ) (text : Text) (s : Stage) (r : Run World) (until : Option Text)
      → until ≡ some text
      → chance.parse_duration text ≡ none
      → atoi text ≡ some (pos n)
      → 0 < total_queries o f chance s
      → n < rounds
      → IsEnded (with_until o f chance rounds skip s r until)
  unfolding with_until read_until started
  with_until-IsEnded n rounds skip text s r none e d c h k = absurd (cc e)
  with_until-IsEnded n rounds skip text s r (some t) e d c h k =
      let same : t ≡ text = cc e in
      rw (same, d, c) (random_loop-IsEnded rounds n skip 1 [] s r h tt (omega arith) (omega arith))

  -- With a count in randomly_execute_until, `runRandomly` returns within one round more than the count
  -- says, whatever fails, and never panics: no index is out of range. The random source returns
  -- permutations and indices in range, the text is no duration, and the stage has a query or a file.
  pub run_randomly-IsEnded :
      (n rounds skip : ℕ) (text : Text) (s : Stage) (r : Run World)
      → s.randomly_execute_until ≡ some text
      → chance.parse_duration text ≡ none
      → atoi text ≡ some (pos n)
      → 0 < length s.queries + length s.query_files
      → n < rounds
      → IsEnded (run_randomly o f chance rounds skip s r)
  unfolding run_randomly total_queries
  run_randomly-IsEnded n rounds skip text s r e d c h k =
      with_until-IsEnded n rounds skip text s r s.randomly_execute_until e d c h k
