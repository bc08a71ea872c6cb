-- ===== src/Stage/Random/Cycles.antt =====
-- The choices of `runRandomly` in stage/stage.go without duplicates.
use pbench.Prelude.{
  ℕ, zero, suc, ◌<◌, ◌≡◌, refl, true, Option, none, some, List, [], ◌∷◌, length, arith,
}
use pbench.Stage.Queries.{Outside}
use pbench.Stage.Sequence.{Sources}
use pbench.Stage.Random.{Chance, next_index, take_first}

module _ (o : Outside) (f : Sources o.World) (chance : Chance o.World) where
  open o use {World}

  draw_more :
      Option (ℕ × List ℕ × World)
      → (List ℕ → World → Option (List ℕ × List ℕ × World))
      → Option (List ℕ × List ℕ × World)
  draw_more none rest = none
  draw_more (some (i, indices, w)) rest = elim (rest indices w) [
    | none ↦ none
    | some (drawn, left, w') ↦ some (i ∷ drawn, left, w')
  ]

  -- The next `n` indices.
  pub draw : ℕ → ℕ → List ℕ → World → Option (List ℕ × List ℕ × World)
  unfolding draw_more
  draw zero total indices w = some ([], indices, w)
  draw (suc n) total indices w =
      draw_more (next_index o f chance true total indices w) (draw n total)

  draw_rest : (total : ℕ) (xs : List ℕ) (w : World) → draw (length xs) total xs w ≡ some (xs, [], w)
  unfolding draw draw_more next_index
  draw_rest total [] w = refl
  draw_rest total (x ∷ xs) w = rw (draw_rest total xs w) refl

  draw_shuffled :
      (total : ℕ) (w w' : World) (xs : List ℕ)
      → chance.perm total w ≡ (xs, w')
      → 0 < length xs
      → draw (length xs) total [] w ≡ some (xs, [], w')
  unfolding draw draw_more next_index take_first
  draw_shuffled total w w' [] e h = absurd (omega arith)
  draw_shuffled total w w' (x ∷ xs) e h = rw e (rw (draw_rest total xs w') refl)

  -- Without duplicates, and with no shuffled index left, the next choices are those of one new shuffle,
  -- each once and in its order, and behind them none is left: nothing repeats before all are drawn.
  pub draw_cycle :
      (total : ℕ) (w : World)
      → 0 < total
      → length (chance.perm total w).0 ≡ total
      → draw total total [] w ≡ some ((chance.perm total w).0, [], (chance.perm total w).1)
  draw_cycle total w h k = rw k at (
      draw_shuffled total w (chance.perm total w).1 (chance.perm total w).0 refl (omega (arith, k)))
