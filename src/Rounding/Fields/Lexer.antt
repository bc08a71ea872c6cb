-- ===== src/Rounding/Fields/Lexer.antt =====
-- A reference for the loop of `scanCommaSeparatedField` (cmd/round/main.go) that reads one byte at a
-- time, where the source jumps from mark to mark.
use pbench.Prelude.{
  ℕ, zero, suc, ◌%◌, ◌≤◌, ◌≡◌, refl, Bool, false, ◌&&◌, ◌||◌, [], ◌∷◌, arith, Text, ◌==◌,
  if◌then◌else◌, length, ◌∙◌,
}
use pbench.Sql.Split.{seek, backslashes}
use pbench.Sql.Split.Lexer.{length-seek, Heads, seek-Heads}
use pbench.Rounding.Fields.{
  Mode, outside, inside, is_mark, Step, stop, cut, go, outside_step, inside_step, field_step,
  FieldEnd, at_comma, at_end, continue, field_loop,
}

-- The mode behind `c`, where `before` stands in front of it.
unfoldable pub next : Mode → Text → ℕ → Mode
next outside before c = if c == b'"' || c == b'\'' then inside c else outside
next (inside q) before c = if c == q && backslashes before % 2 == 0 then outside else inside q

unfoldable pub ends : Mode → ℕ → Bool
ends outside c = c == b','
ends (inside q) c = false

-- What stands before and behind the first comma outside quotes.
unfoldable pub lex : Text → Text → Mode → FieldEnd
lex before [] m = at_end m
lex before (c ∷ rest) m =
    let further = lex (c ∷ before) rest (next m before c) in
    if ends m c then at_comma before rest else further

abbrev Passes : (ℕ → Bool) → Mode → Type 0
Passes p m =
    (before : Text) (c : ℕ) (rest : Text)
    → p c ≡ false
    → lex before (c ∷ rest) m ≡ lex (c ∷ before) rest m

lex-seek :
    (p : ℕ → Bool) (m : Mode) (before rest : Text)
    → Passes p m
    → lex before rest m ≡ lex (seek p before rest).0 (seek p before rest).1 m
unfolding seek
lex-seek p m before [] h = refl
lex-seek p m before (c ∷ rest) h = ground (arith, h before c rest, lex-seek p m (c ∷ before) rest h)

outside-Passes : Passes is_mark outside
unfolding lex next ends is_mark
outside-Passes before c rest h = ground arith

inside-Passes : (q : ℕ) → Passes (λ c. c == q) (inside q)
unfolding lex next ends
inside-Passes q before c rest h = ground arith

lex-outside_step :
    (s : Text × Text) → Heads is_mark s.1 → lex s.0 s.1 outside ≡ continue lex (outside_step s)
unfolding lex continue outside_step next ends is_mark
lex-outside_step (before, []) h = refl
lex-outside_step (before, c ∷ rest) h = ground arith

lex-inside_step :
    (q : ℕ) (s : Text × Text)
    → Heads (λ c. c == q) s.1
    → lex s.0 s.1 (inside q) ≡ continue lex (inside_step q s)
unfolding lex continue inside_step next ends
lex-inside_step q (before, []) h = refl
lex-inside_step q (before, c ∷ rest) h = ground arith

lex-field_step :
    (before rest : Text) (m : Mode) → lex before rest m ≡ continue lex (field_step before rest m)
unfolding field_step
lex-field_step before rest outside =
    lex-seek is_mark outside before rest outside-Passes
    ∙ lex-outside_step _ (seek-Heads is_mark before rest)
lex-field_step before rest (inside q) =
    lex-seek _ (inside q) before rest (inside-Passes q)
    ∙ lex-inside_step q _ (seek-Heads _ before rest)

-- A round that goes on leaves at most `n` bytes.
abbrev Leaves : ℕ → Step → Type 0
Leaves n (stop m) = Unit
Leaves n (cut before rest) = Unit
Leaves n (go before rest m) = suc (length rest) ≤ n

Leaves-outside_step : (n : ℕ) (s : Text × Text) → length s.1 ≤ n → Leaves n (outside_step s)
unfolding outside_step
Leaves-outside_step n (before, []) h = tt
Leaves-outside_step n (before, c ∷ rest) h = ground arith

Leaves-inside_step : (n q : ℕ) (s : Text × Text) → length s.1 ≤ n → Leaves n (inside_step q s)
unfolding inside_step
Leaves-inside_step n q (before, []) h = tt
Leaves-inside_step n q (before, c ∷ rest) h = ground arith

Leaves-field_step :
    (before rest : Text) (m : Mode) (n : ℕ) → length rest ≤ n → Leaves n (field_step before rest m)
unfolding field_step
Leaves-field_step before rest outside n h =
    Leaves-outside_step n (seek is_mark before rest)
      (omega (arith, length-seek is_mark before rest))
Leaves-field_step before rest (inside q) n h =
    Leaves-inside_step n q (seek (λ c. c == q) before rest)
      (omega (arith, length-seek (λ c. c == q) before rest))

continue-field_loop :
    (rounds : ℕ) (s : Step)
    → ((before rest : Text) (m : Mode)
        → length rest ≤ rounds
        → field_loop rounds before rest m ≡ lex before rest m)
    → Leaves (suc rounds) s
    → continue (field_loop rounds) s ≡ continue lex s
unfolding continue
continue-field_loop rounds (stop m) ih h = refl
continue-field_loop rounds (cut before rest) ih h = refl
continue-field_loop rounds (go before rest m) ih h = ih before rest m (omega arith)

-- With a round for each byte the loop finds the comma that the reference finds.
pub field_loop-eq-lex :
    (rounds : ℕ) (before rest : Text) (m : Mode)
    → length rest ≤ rounds
    → field_loop rounds before rest m ≡ lex before rest m
unfolding field_loop
field_loop-eq-lex zero before [] m h = unfold lex in refl
field_loop-eq-lex zero before (c ∷ rest) m h = absurd (omega arith)
field_loop-eq-lex (suc rounds) before rest m h = rw (lex-field_step before rest m) (
    continue-field_loop rounds (field_step before rest m) (field_loop-eq-lex rounds)
      (Leaves-field_step before rest m (suc rounds) h))
