-- ===== src/Stage/Random.antt =====
-- `runRandomly` of stage/stage.go. The random source, the clock and `time.ParseDuration` are parameters.
pub mod Ends
pub mod Cycles
use pbench.Prelude.{
  ℕ, zero, suc, ◌+◌, ◌-◌, ◌*◌, ◌^◌, Bool, true, false, not, ◌&&◌, Option, none, some, List, [], ◌∷◌,
  ◌++◌, Text, codes, itoa, ltb, leb, ◌==◌, if◌then◌else◌, get_elem?, length,
}
use pbench.Prelude.Int.{ℤ, pos, negsuc, leb_ℤ}
use pbench.Prelude.Atoi.{atoi}
use pbench.Stage.Config.{Stage}
use pbench.Stage.Queries.{
  RunError, until_missing, until_invalid, Outside, Run, set_exit_code, aborts, run_queries,
}
use pbench.Stage.Sequence.{Sources, run_query_file, file_alias}

-- `rand.Perm`, `rand.Intn` and `time.Now`, which change the world, and `time.ParseDuration`.
pub record Chance (W : Type 0) : Type 0 where
  pub perm : ℕ → W → List ℕ × W
  pub intn : ℕ → W → ℕ × W
  pub now : W → ℕ × W
  pub parse_duration : Text → Option ℤ

-- The two forms of `continueExecution`: until a time, or as often as a count says.
pub data Until : Type 0 where
  before : ℤ → Until
  times : ℤ → Until

add_ℤ : ℕ → ℤ → ℤ
add_ℤ n (pos k) = pos (n + k)
add_ℤ n (negsuc k) = if ltb k n then pos (n - suc k) else negsuc (k - n)

-- How a random run ends: with its error, or in a panic, or the rounds that it was given ran out.
pub data Ended (W : Type 0) : Type 0 where
  ended : Option RunError → Stage → Run W → Ended W
  panicked : Ended W
  out_of_rounds : Ended W

module _ (o : Outside) (f : Sources o.World) (chance : Chance o.World) where
  open o use {World}
  open chance use {perm, intn, now, parse_duration}

  read_until : Text → Option ℤ → Option ℤ → World → Option (Until × World)
  unfolding add_ℤ
  read_until text (some dur) count w = let (t, w') = now w in some (before (add_ℤ t dur), w')
  read_until text none (some count) w = some (times count, w)
  read_until text none none w = none

  -- `continueExecution(i)`
  pub continue_execution : Until → ℕ → World → Bool × World
  continue_execution (times n) i w = (leb_ℤ (pos i) n, w)
  continue_execution (before end) i w = let (t, w') = now w in (not (leb_ℤ end (pos t)), w')

  take_first : List ℕ × World → Option (ℕ × List ℕ × World)
  take_first ([], w) = none
  take_first (i ∷ indices, w) = some (i, indices, w)

  -- `nextIndex`, with `indices[pos:]`. `none` is the panic of an empty choice.
  pub next_index : Bool → ℕ → List ℕ → World → Option (ℕ × List ℕ × World)
  unfolding take_first
  next_index true total (i ∷ indices) w = some (i, indices, w)
  next_index true total [] w = take_first (perm total w)
  next_index false zero indices w = none
  next_index false (suc n) indices w = let (i, w') = intn (suc n) w in some (i, indices, w')

  no_duplicates : Stage → Bool
  no_duplicates s = elim s.no_random_duplicates [ none ↦ false | some b ↦ b ]

  -- Behind a batch: `return err`, or the next round.
  after_batch :
      Option RunError × Stage × Run World → (Stage → Run World → Ended World) → Ended World
  after_batch (some e, s, r) rest = ended (some e) s r
  after_batch (none, s, r) rest = rest s r

  run_inline : Stage → ℕ → Option Text → Run World → (Stage → Run World → Ended World) → Ended World
  unfolding after_batch
  run_inline s i none r rest = panicked
  run_inline s i (some text) r rest =
      let (err, r') = run_queries o s (text ∷ []) (some (codes "rand_" ++ itoa i)) 0 r in
      after_batch (err, s, r') rest

  run_file : Stage → ℕ → Option Text → Run World → (Stage → Run World → Ended World) → Ended World
  unfolding after_batch
  run_file s i none r rest = panicked
  run_file s i (some file) r rest =
      let alias = codes "rand_" ++ itoa i ++ codes "_" ++ file_alias o f s file none in
      let (err, start, s', r') = run_query_file o f s file none (some alias) r in
      after_batch (err, s', r') rest

  -- What index `idx` stands for: an inline query, or a file.
  run_index : Stage → ℕ → ℕ → Run World → (Stage → Run World → Ended World) → Ended World
  unfolding run_inline run_file
  run_index s i idx r rest =
      if ltb idx (length s.queries)
      then run_inline s i (get_elem? s.queries idx) r rest
      else run_file s i (get_elem? s.query_files (idx - length s.queries)) r rest

  picked :
      ℕ
      → ℕ
      → Stage
      → Option (ℕ × List ℕ × World)
      → Run World
      → (List ℕ → Stage → Run World → Ended World)
      → Ended World
  unfolding run_index
  picked skip i s none r rest = panicked
  picked skip i s (some (idx, indices, w)) r rest =
      if leb i skip
      then rest indices s (record r { world = w })
      else run_index s i idx (record r { world = w }) (rest indices)

  total_queries : Stage → ℕ
  total_queries s = length s.queries + length s.query_files

  round :
      Until
      → ℕ
      → ℕ
      → List ℕ
      → Stage
      → Bool × World
      → Run World
      → (List ℕ → Stage → Run World → Ended World)
      → Ended World
  unfolding picked no_duplicates total_queries
  round until skip i indices s (false, w) r rest = ended none s (record r { world = w })
  round until skip i indices s (true, w) r rest =
      picked skip i s (next_index (no_duplicates s) (total_queries s) indices w) r rest

  -- The loop from round `i` on, with the rounds left.
  pub random_loop : ℕ → Until → ℕ → ℕ → List ℕ → Stage → Run World → Ended World
  unfolding round
  random_loop zero until skip i indices s r = out_of_rounds
  random_loop (suc rounds) until skip i indices s r =
      round until skip i indices s (continue_execution until i r.world) r
        (random_loop rounds until skip (suc i))

  started : ℕ → ℕ → Text → Stage → Option (Until × World) → Run World → Ended World
  started rounds skip text s none r =
      if aborts s
      then ended (some (until_invalid text)) s (set_exit_code (pos 2) r)
      else ended none s r
  started rounds skip text s (some (until, w)) r =
      random_loop rounds until skip 1 [] s (record r { world = w })

  with_until : ℕ → ℕ → Stage → Run World → Option Text → Ended World
  unfolding started read_until
  with_until rounds skip s r none = ended (some until_missing) s r
  with_until rounds skip s r (some text) =
      started rounds skip text s (read_until text (parse_duration text) (atoi text) r.world) r

  -- `runRandomly`, with a number of rounds.
  pub run_randomly : ℕ → ℕ → Stage → Run World → Ended World
  unfolding with_until
  run_randomly rounds skip s r = with_until rounds skip s r s.randomly_execute_until
