-- ===== src/Rounding/Files/Rows.antt =====
-- What `processRoundDecimalFile` (cmd/round/main.go) writes, line by line and column by column.
use pbench.Prelude.{
  subst, sym, ==_iff, Bool-cases, ℕ, zero, suc, ◌+◌, ◌<◌, ◌≤◌, ◌≡◌, refl, ◌∙◌, ap, Bool, true,
  false, ◌||◌, Option, none, some, List, [], ◌∷◌, arith, Text, ◌==◌, if◌then◌else◌, length,
  get_elem?, Option-cases, inl, inr,
}
use pbench.Rounding.Fields.{ScanError, scan_row}
use pbench.Rounding.Decimals.{find_decimal, Format, formatted, rewritten}
use pbench.Rounding.Files.{
  no_decimal, failed, FileError, prepend_line, with_columns, written, first_line, other_lines,
  process_lines, FileOutcome, row_content, mark_decimals, rewrite_at, rewrite_all, written_line,
}

abbrev pub mem : ℕ → List ℕ → Bool
mem j [] = false
mem j (i ∷ idxs) = i == j || mem j idxs

-- The indexes increase, from `k` on.
abbrev pub IsIncreasing : ℕ → List ℕ → Type 0
IsIncreasing k [] = Unit
IsIncreasing k (i ∷ idxs) = (k ≤ i) × IsIncreasing (suc i) idxs

mem-below : (j k : ℕ) (idxs : List ℕ) → j < k → IsIncreasing k idxs → mem j idxs ≡ false
mem-below j k [] l h = refl
mem-below j k (i ∷ idxs) l (h, hs) = ground (arith, mem-below j (suc i) idxs)

weaker : (k j : ℕ) (idxs : List ℕ) → k ≤ j → IsIncreasing j idxs → IsIncreasing k idxs
weaker k j [] l h = tt
weaker k j (i ∷ idxs) l (h, hs) = (omega arith, hs)

suc-eq-zero : (i : ℕ) → (suc i == 0) ≡ false
suc-eq-zero i = ground arith

zero-eq-suc : (j : ℕ) → (0 == suc j) ≡ false
zero-eq-suc j = ground arith

suc-eq-suc : (i j : ℕ) → (suc i == suc j) ≡ (i == j)
suc-eq-suc i j = ground arith

eq_self : (i : ℕ) → (i == i + 0) ≡ true
eq_self i = ground arith

eq-add : (i j : ℕ) → (i == i + suc j) ≡ false
eq-add i j = ground arith

module _ (f : Format) (p : ℕ) where
  -- A column whose index is marked is rewritten, if it matches; the others stay.
  abbrev pub column_at : Bool → Option Text → Option Text
  column_at b none = none
  column_at b (some col) = some (if b then rewritten f p col else col)

  column_at_twice :
      (b c : Bool) (o : Option Text)
      → (c ≡ true → b ≡ false)
      → column_at b (column_at c o) ≡ column_at (c || b) o
  column_at_twice b c none h = refl
  column_at_twice true true (some col) h = cc (h refl)
  column_at_twice false true (some col) h = refl
  column_at_twice b false (some col) h = refl

  column_at-false : (o : Option Text) → o ≡ column_at false o
  column_at-false none = refl
  column_at-false (some col) = refl

  get_elem?-rewrite_at :
      (i j : ℕ) (cols : List Text)
      → get_elem? (rewrite_at f p i cols) j ≡ column_at (i == j) (get_elem? cols j)
  unfolding rewrite_at
  get_elem?-rewrite_at i j [] = refl
  get_elem?-rewrite_at zero zero (col ∷ cols) = refl
  get_elem?-rewrite_at zero (suc j) (col ∷ cols) =
      rw (zero-eq-suc j) (column_at-false (get_elem? cols j))
  get_elem?-rewrite_at (suc i) zero (col ∷ cols) = rw (suc-eq-zero i) refl
  get_elem?-rewrite_at (suc i) (suc j) (col ∷ cols) =
      rw (suc-eq-suc i j) (get_elem?-rewrite_at i j cols)

  length-rewrite_at : (i : ℕ) (cols : List Text) → length (rewrite_at f p i cols) ≡ length cols
  unfolding rewrite_at
  length-rewrite_at i [] = refl
  length-rewrite_at zero (col ∷ cols) = refl
  length-rewrite_at (suc i) (col ∷ cols) = ap suc (length-rewrite_at i cols)

  length-rewrite_all :
      (idxs : List ℕ) (cols : List Text) → length (rewrite_all f p idxs cols) ≡ length cols
  unfolding rewrite_all
  length-rewrite_all [] cols = refl
  length-rewrite_all (i ∷ idxs) cols =
      length-rewrite_all idxs (rewrite_at f p i cols) ∙ length-rewrite_at i cols

  get_elem?-rewrite_all :
      (k : ℕ) (idxs : List ℕ) (cols : List Text) (j : ℕ)
      → IsIncreasing k idxs
      → get_elem? (rewrite_all f p idxs cols) j ≡ column_at (mem j idxs) (get_elem? cols j)
  unfolding rewrite_all
  get_elem?-rewrite_all k [] cols j h = column_at-false (get_elem? cols j)
  get_elem?-rewrite_all k (i ∷ idxs) cols j (l, h) =
      get_elem?-rewrite_all (suc i) idxs (rewrite_at f p i cols) j h
      ∙ ap (column_at (mem j idxs)) (get_elem?-rewrite_at i j cols)
      ∙ column_at_twice (mem j idxs) (i == j) (get_elem? cols j)
          (λ e. mem-below j (suc i) idxs (ground arith) h)

  -- The columns of a line, and those that are written.
  abbrev pub IsRewritten : List ℕ → List Text → List Text → Type 0
  IsRewritten idxs cols cols' =
      (length cols' ≡ length cols)
      × ((j : ℕ) → get_elem? cols' j ≡ column_at (mem j idxs) (get_elem? cols j))

  module _ (i : ℕ) (col : Text) (idxs : List ℕ) (rest rest' : List Text)
      (inc : IsIncreasing (suc i) idxs)
      (at : (j : ℕ) → get_elem? rest' j ≡ column_at (mem (suc i + j) idxs) (get_elem? rest j)) where
    unmarked :
        (j : ℕ)
        → get_elem? (col ∷ rest') j ≡ column_at (mem (i + j) idxs) (get_elem? (col ∷ rest) j)
    unmarked zero = rw (mem-below (i + 0) (suc i) idxs (omega arith) inc) refl
    unmarked (suc j) = let e : i + suc j ≡ suc i + j = omega arith in rw e (at j)

    marked :
        (j : ℕ)
        → get_elem? (rewritten f p col ∷ rest') j
          ≡ column_at (mem (i + j) (i ∷ idxs)) (get_elem? (col ∷ rest) j)
    marked zero = rw (eq_self i) refl
    marked (suc j) = rw (eq-add i j) (unmarked (suc j))

  rewritten-some : (col t : Text) → find_decimal p col ≡ some t → rewritten f p col ≡ formatted f t
  unfolding rewritten
  rewritten-some col t e = rw (e, rewritten) refl

  mark_decimals_lem :
      (i : ℕ) (cols : List Text)
      → IsIncreasing i (mark_decimals f p i cols).0
        × (length (mark_decimals f p i cols).1 ≡ length cols)
        × ((j : ℕ)
            → get_elem? (mark_decimals f p i cols).1 j
              ≡ column_at (mem (i + j) (mark_decimals f p i cols).0) (get_elem? cols j))
  unfolding mark_decimals
  mark_decimals_lem i [] = (tt, refl, λ j. refl)
  mark_decimals_lem i (col ∷ cols) =
      let (inc, len, at) = mark_decimals_lem (suc i) cols in
      elim (Option-cases (find_decimal p col)) [
        | inl e ↦
            rw (e, mark_decimals)
              (weaker i (suc i) _ (omega arith) inc, ap suc len, unmarked i col _ cols _ inc at)
        | inr (t, e) ↦
            rw (e, mark_decimals)
              (
                (omega arith, inc),
                ap suc len,
                (rw (← rewritten-some col t e) (marked i col _ cols _ inc at)),
              )
      ]

  -- Each line with the columns that are written for it; every line has as many columns as the first.
  abbrev pub Written : List ℕ → ℕ → List Text → List Text → Type 0
  Written idxs count [] [] = Unit
  Written idxs count [] (o ∷ out) = ⊥
  Written idxs count (line ∷ lines) [] = ⊥
  Written idxs count (line ∷ lines) (o ∷ out) =
      ((cols : List Text) × (cols' : List Text) × (scan_row (row_content f line)
          ≡ some (cols, none))
        × (length cols ≡ count)
        × IsRewritten idxs cols cols'
        × (o ≡ written_line f cols'))
      × Written idxs count lines out

  IsRewritten-rewrite_all :
      (k : ℕ) (idxs : List ℕ) (cols : List Text)
      → IsIncreasing k idxs
      → IsRewritten idxs cols (rewrite_all f p idxs cols)
  IsRewritten-rewrite_all k idxs cols h =
      (length-rewrite_all idxs cols, λ j. get_elem?-rewrite_all k idxs cols j h)

  -- Inversion of a line that was written.
  with_columns-written :
      (n : ℕ) (o : Option (List Text × Option ScanError)) (k : List Text → FileOutcome)
      (out : List Text)
      → with_columns n o k ≡ written out
      → (cols : List Text) × (o ≡ some (cols, none)) × (k cols ≡ written out)
  with_columns-written n none k out h = cc
  with_columns-written n (some (cols, some e)) k out h = cc
  with_columns-written n (some (cols, none)) k out h = (cols, refl, h)

  prepend_line-written :
      (line : Text) (o : FileOutcome) (out : List Text)
      → prepend_line line o ≡ written out
      → (rest : List Text) × (o ≡ written rest) × (out ≡ line ∷ rest)
  prepend_line-written line no_decimal out h = cc
  prepend_line-written line (failed e) out h = cc
  prepend_line-written line (written ls) out h = (ls, refl, cc)

  other_lines-Written :
      (k : ℕ) (idxs : List ℕ) (count n : ℕ) (lines out : List Text)
      → IsIncreasing k idxs
      → other_lines f p idxs count n lines ≡ written out
      → Written idxs count lines out
  unfolding other_lines
  other_lines-Written k idxs count n [] [] inc h = tt
  other_lines-Written k idxs count n [] (o ∷ out) inc h = cc
  other_lines-Written k idxs count n (line ∷ lines) out inc h =
      let (cols, scanned, rest) = with_columns-written n (scan_row (row_content f line)) _ out h in
      elim (Bool-cases (length cols == count)) [
        | inl e ↦
            let (ls, found, eq) = prepend_line-written _ _ out (rw e at rest) in
            rw eq (
              (
                cols,
                rewrite_all f p idxs cols,
                scanned,
                (==_iff (length cols) count).0 e,
                IsRewritten-rewrite_all k idxs cols inc,
                refl,
              ),
              other_lines-Written k idxs count (suc n) lines ls inc found,
            )
        | inr e ↦ absurd (not_written (rw e at rest))
      ]
    where
      not_written : {e : FileError} {out : List Text} → failed e ≡ written out → ⊥
      not_written e = cc

  from_zero :
      (cols cols' : List Text) (idxs : List ℕ)
      → ((j : ℕ) → get_elem? cols' j ≡ column_at (mem (0 + j) idxs) (get_elem? cols j))
      → (j : ℕ) → get_elem? cols' j ≡ column_at (mem j idxs) (get_elem? cols j)
  from_zero cols cols' idxs at j =
      let e : 0 + j ≡ j = omega arith in
      subst (λ k. get_elem? cols' j ≡ column_at (mem k idxs) (get_elem? cols j)) e (at j)

  first_line-written :
      (lines : List Text) (m : List ℕ × List Text) (out : List Text)
      → first_line f p true lines m ≡ written out
      → (rest : List Text) × (other_lines f p m.0 (length m.1) 2 lines ≡ written rest)
        × (out ≡ written_line f m.1 ∷ rest)
  unfolding first_line
  first_line-written lines ([], cols) out h = cc
  first_line-written lines (i ∷ idxs, cols) out h = prepend_line-written _ _ out h

  -- If an output file is written, then it has a line for every line of the file, every line of the file
  -- has as many columns as the first, and in every line the columns at the same increasing indexes are
  -- rewritten if they match, and all others are as they were read.
  pub process_lines-Written :
      (lines out : List Text)
      → process_lines f p true lines ≡ written out
      → (idxs : List ℕ) × (count : ℕ) × IsIncreasing 0 idxs × Written idxs count lines out
  unfolding process_lines
  process_lines-Written [] out h = cc
  process_lines-Written (line ∷ lines) out h =
      let (cols, scanned, rest) = with_columns-written 1 (scan_row (row_content f line)) _ out h in
      let (inc, len, at) = mark_decimals_lem 0 cols in
      let (ls, found, eq) = first_line-written lines (mark_decimals f p 0 cols) out rest in
      (
        (mark_decimals f p 0 cols).0,
        length (mark_decimals f p 0 cols).1,
        inc,
        rw eq (
          (
            cols,
            (mark_decimals f p 0 cols).1,
            scanned,
            sym len,
            (len, from_zero cols (mark_decimals f p 0 cols).1 (mark_decimals f p 0 cols).0 at),
            refl,
          ),
          other_lines-Written 0 _ _ 2 lines ls inc found,
        ),
      )
