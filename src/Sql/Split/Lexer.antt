-- ===== src/Sql/Split/Lexer.antt =====
-- A reference for the loop of `ScanSqlStmt`: an automaton that reads one byte at a time, where the
-- source jumps from mark to mark.
use pbench.Prelude.{
  ℕ, zero, suc, ◌%◌, ◌≤◌, ◌≡◌, refl, Bool, true, false, ◌&&◌, ◌||◌, Option, none, some, [], ◌∷◌,
  arith, Text, ◌==◌, if◌then◌else◌, length, Bool-cases, inl, inr, ◌∙◌,
}
use pbench.Sql.Split.{
  Mode, plain, quoted, comment, multiline, Round, stop, found, go, seek, backslashes, is_mark,
  round, scan_loop, comment_round, multiline_round, quoted_round, plain_round, open_comment,
  continue,
}

abbrev pub starts : ℕ → Text → Bool
starts d [] = false
starts d (c ∷ rest) = c == d

-- Is the byte behind `c` read together with it?
unfoldable pub skips : Mode → ℕ → Text → Bool
skips plain c rest = (c == b'-' && starts b'-' rest) || (c == b'/' && starts b'*' rest)
skips multiline c rest = c == b'*' && starts b'/' rest
skips comment c rest = false
skips (quoted q) c rest = false

-- The mode behind `c`, where `before` stands in front of it.
unfoldable pub next : Mode → Text → ℕ → Text → Mode
next plain before c rest =
    if c == b'-' && starts b'-' rest
    then comment
    else if c == b'/' && starts b'*' rest
    then multiline
    else if c == b'\'' || c == b'"'
    then quoted c
    else plain
next (quoted q) before c rest = if c == q && backslashes before % 2 == 0 then plain else quoted q
next comment before c rest = if c == b'\n' then plain else comment
next multiline before c rest = if c == b'*' && starts b'/' rest then plain else multiline

unfoldable pub ends : Mode → ℕ → Bool
ends plain c = c == b';'
ends (quoted q) c = false
ends comment c = false
ends multiline c = false

-- What stands before and behind the first semicolon outside quotes and comments.
unfoldable pub lex : Text → Text → Bool → Mode → Option (Text × Text)
lex before [] skip m = none
lex before (c ∷ rest) true m = lex (c ∷ before) rest false m
lex before (c ∷ rest) false m =
    let further = lex (c ∷ before) rest (skips m c rest) (next m before c rest) in
    if ends m c then some (before, rest) else further

-- Bytes that a mode passes over.
abbrev Passes : (ℕ → Bool) → Mode → Type 0
Passes p m =
    (before : Text) (c : ℕ) (rest : Text)
    → p c ≡ false
    → lex before (c ∷ rest) false m ≡ lex (c ∷ before) rest false m

lex-seek :
    (p : ℕ → Bool) (m : Mode) (before rest : Text)
    → Passes p m
    → lex before rest false m ≡ lex (seek p before rest).0 (seek p before rest).1 false m
unfolding seek
lex-seek p m before [] h = refl
lex-seek p m before (c ∷ rest) h = ground (arith, h before c rest, lex-seek p m (c ∷ before) rest h)

pub length-seek : (p : ℕ → Bool) (before rest : Text) → length (seek p before rest).1 ≤ length rest
unfolding seek
length-seek p before [] = omega arith
length-seek p before (c ∷ rest) = ground (arith, length-seek p (c ∷ before) rest)

plain-Passes : Passes is_mark plain
unfolding lex skips next ends is_mark
plain-Passes before c rest h = ground arith

quoted-Passes : (q : ℕ) → Passes (λ c. c == q) (quoted q)
unfolding lex skips next ends
quoted-Passes q before c rest h = ground arith

comment-Passes : Passes (λ c. c == b'\n') comment
unfolding lex skips next ends
comment-Passes before c rest h = ground arith

multiline-Passes : Passes (λ c. c == b'*') multiline
unfolding lex skips next ends
multiline-Passes before c rest h = ground arith

abbrev reference : Text → Text → Mode → Option (Text × Text)
reference before rest m = lex before rest false m

-- A round that goes on leaves at most `n` bytes.
abbrev Leaves : ℕ → Round → Type 0
Leaves n stop = Unit
Leaves n (found before rest) = Unit
Leaves n (go before rest m) = suc (length rest) ≤ n

-- Where a search stopped, its test holds.
abbrev pub Heads : (ℕ → Bool) → Text → Type 0
Heads p [] = Unit
Heads p (c ∷ rest) = p c ≡ true

pub seek-Heads : (p : ℕ → Bool) (before rest : Text) → Heads p (seek p before rest).1
unfolding seek
seek-Heads p before [] = tt
seek-Heads p before (c ∷ rest) = elim (Bool-cases (p c)) [
  | inl e ↦ rw e e
  | inr e ↦ rw e (seek-Heads p (c ∷ before) rest)
]

lex-comment_round :
    (s : Text × Text)
    → Heads (λ c. c == b'\n') s.1
    → lex s.0 s.1 false comment ≡ continue reference (comment_round s)
unfolding lex continue comment_round skips next ends
lex-comment_round (before, []) h = refl
lex-comment_round (before, c ∷ rest) h = ground arith

lex-multiline_round :
    (s : Text × Text)
    → Heads (λ c. c == b'*') s.1
    → lex s.0 s.1 false multiline ≡ continue reference (multiline_round s)
unfolding lex continue multiline_round skips next ends
lex-multiline_round (before, []) h = refl
lex-multiline_round (before, c ∷ []) h = ground arith
lex-multiline_round (before, c ∷ d ∷ rest) h = ground arith

lex-quoted_round :
    (q : ℕ) (s : Text × Text)
    → Heads (λ c. c == q) s.1
    → lex s.0 s.1 false (quoted q) ≡ continue reference (quoted_round q s)
unfolding lex continue quoted_round skips next ends
lex-quoted_round q (before, []) h = refl
lex-quoted_round q (before, c ∷ rest) h = ground arith

lex-plain_round :
    (s : Text × Text)
    → Heads is_mark s.1
    → lex s.0 s.1 false plain ≡ continue reference (plain_round s)
unfolding lex continue plain_round open_comment skips next ends is_mark
lex-plain_round (before, []) h = refl
lex-plain_round (before, c ∷ []) h = ground arith
lex-plain_round (before, c ∷ d ∷ rest) h = ground arith

lex-round :
    (before rest : Text) (m : Mode)
    → lex before rest false m ≡ continue reference (round before rest m)
unfolding round
lex-round before rest plain =
    lex-seek is_mark plain before rest plain-Passes
    ∙ lex-plain_round _ (seek-Heads is_mark before rest)
lex-round before rest (quoted q) =
    lex-seek _ (quoted q) before rest (quoted-Passes q)
    ∙ lex-quoted_round q _ (seek-Heads _ before rest)
lex-round before rest comment =
    lex-seek _ comment before rest comment-Passes ∙ lex-comment_round _ (seek-Heads _ before rest)
lex-round before rest multiline =
    lex-seek _ multiline before rest multiline-Passes
    ∙ lex-multiline_round _ (seek-Heads _ before rest)

Leaves-plain_round : (n : ℕ) (s : Text × Text) → length s.1 ≤ n → Leaves n (plain_round s)
unfolding plain_round open_comment
Leaves-plain_round n (before, []) h = tt
Leaves-plain_round n (before, c ∷ []) h = ground arith
Leaves-plain_round n (before, c ∷ d ∷ rest) h = ground arith

Leaves-comment_round : (n : ℕ) (s : Text × Text) → length s.1 ≤ n → Leaves n (comment_round s)
unfolding comment_round
Leaves-comment_round n (before, []) h = tt
Leaves-comment_round n (before, c ∷ rest) h = h

Leaves-multiline_round : (n : ℕ) (s : Text × Text) → length s.1 ≤ n → Leaves n (multiline_round s)
unfolding multiline_round
Leaves-multiline_round n (before, []) h = tt
Leaves-multiline_round n (before, c ∷ []) h = tt
Leaves-multiline_round n (before, c ∷ d ∷ rest) h = ground arith

Leaves-quoted_round : (n q : ℕ) (s : Text × Text) → length s.1 ≤ n → Leaves n (quoted_round q s)
unfolding quoted_round
Leaves-quoted_round n q (before, []) h = tt
Leaves-quoted_round n q (before, c ∷ rest) h = ground arith

Leaves-round :
    (before rest : Text) (m : Mode) (n : ℕ) → length rest ≤ n → Leaves n (round before rest m)
unfolding round
Leaves-round before rest plain n h =
    Leaves-plain_round n (seek is_mark before rest) (omega (arith, length-seek is_mark before rest))
Leaves-round before rest (quoted q) n h =
    Leaves-quoted_round n q (seek (λ c. c == q) before rest)
      (omega (arith, length-seek (λ c. c == q) before rest))
Leaves-round before rest comment n h =
    Leaves-comment_round n (seek (λ c. c == b'\n') before rest)
      (omega (arith, length-seek (λ c. c == b'\n') before rest))
Leaves-round before rest multiline n h =
    Leaves-multiline_round n (seek (λ c. c == b'*') before rest)
      (omega (arith, length-seek (λ c. c == b'*') before rest))

continue-scan_loop :
    (rounds : ℕ) (r : Round)
    → ((before rest : Text) (m : Mode)
        → length rest ≤ rounds
        → scan_loop rounds before rest m ≡ lex before rest false m)
    → Leaves (suc rounds) r
    → continue (scan_loop rounds) r ≡ continue reference r
unfolding continue
continue-scan_loop rounds stop ih h = refl
continue-scan_loop rounds (found before rest) ih h = refl
continue-scan_loop rounds (go before rest m) ih h = ih before rest m (omega arith)

-- With a round for each byte the loop finds the semicolon that the reference finds.
pub scan_loop-eq-lex :
    (rounds : ℕ) (before rest : Text) (m : Mode)
    → length rest ≤ rounds
    → scan_loop rounds before rest m ≡ lex before rest false m
unfolding scan_loop
scan_loop-eq-lex zero before [] m h = unfold lex in refl
scan_loop-eq-lex zero before (c ∷ rest) m h = absurd (omega arith)
scan_loop-eq-lex (suc rounds) before rest m h = rw (lex-round before rest m) (
    continue-scan_loop rounds (round before rest m) (scan_loop-eq-lex rounds)
      (Leaves-round before rest m (suc rounds) h))
