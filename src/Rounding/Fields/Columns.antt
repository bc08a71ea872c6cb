-- ===== src/Rounding/Fields/Columns.antt =====
-- The columns that `processRoundDecimalFile` (cmd/round/main.go) gets from a row, and those that are
-- lost.
use mathlib.Core.List.{reverse}
use pbench.Prelude.{
  ◌⊎◌, ℕ, zero, suc, ◌+◌, ◌<◌, ◌≡◌, refl, sym, ◌∙◌, ap, Bool, true, false, Option, none, some, List,
  [], ◌∷◌, ◌++◌, arith, Text, if◌then◌else◌, length, drop, drop-append, length-append,
  length-reverse, reverse-cons, append_assoc, append-nil, Bool-cases, inl, inr, trim_space,
}
use pbench.Rounding.Fields.{
  Mode, outside, inside, FieldEnd, at_comma, at_end, token_of, field_of, scan_comma_separated_field,
  ScanError, unclosed, Pass, emit, fill, close, settle, pass, Scanned, prepend, follow, scan,
  scan_row, max_scan_token_size,
}
use pbench.Rounding.Fields.Lexer.{lex, next, ends, field_loop-eq-lex}

-- The pieces that end at a comma outside quotes, the last one, and the mode at its end.
pub pieces : Text → Text → Mode → List Text × Text × Mode
pieces before [] m = ([], reverse before, m)
pieces before (c ∷ rest) m =
    let ended = pieces [] rest outside in
    let longer = pieces (c ∷ before) rest (next m before c) in
    if ends m c then (reverse before ∷ ended.0, ended.1, ended.2) else longer

abbrev pub Columns : Type 0
Columns = List Text × Option ScanError

-- A column, unless it is blank.
abbrev pub cons_column : Text → Columns → Columns → Columns
cons_column [] after_blank rest = after_blank
cons_column (c ∷ s) after_blank rest = ((c ∷ s) ∷ rest.0, rest.1)

abbrev pub last_column : Text → Mode → Columns
last_column last (inside q) = ([], some (unclosed q))
last_column last outside = cons_column (trim_space last) ([], none) ([], none)

-- The columns of the pieces: blank pieces give none, and behind the second of them the rest is dropped.
abbrev pub columns : Bool → List Text → Text → Mode → Columns
columns seen [] last m = last_column last m
columns seen (p ∷ ps) last m =
    let rest = columns seen ps last m in
    let after_blank = if seen then ([], none) else columns true ps last m in
    cons_column (trim_space p) after_blank rest

ends_comma : (m : Mode) (c : ℕ) → ends m c ≡ true → c ≡ b','
unfolding ends
ends_comma outside c h = ground arith
ends_comma (inside q) c h = cc

pieces_cut :
    (before rest : Text) (m : Mode) (b r : Text)
    → lex before rest m ≡ at_comma b r
    → (pieces before rest m
        ≡ (reverse b ∷ (pieces [] r outside).0, (pieces [] r outside).1, (pieces [] r outside).2))
      × (reverse before ++ rest ≡ reverse b ++ b',' ∷ r)
      × (length r < length rest)
unfolding pieces lex
pieces_cut before [] m b r h = cc
pieces_cut before (c ∷ rest) m b r h = elim (Bool-cases (ends m c)) [
  | inl e ↦
      let h' : at_comma before rest ≡ at_comma b r = rw e at h in
      let eb : before ≡ b = cc h' in
      let er : rest ≡ r = cc h' in rw (e, ← eb, ← er, ends_comma m c e) (refl, refl, omega arith)
  | inr e ↦
      let (p, q, l) = pieces_cut (c ∷ before) rest (next m before c) b r (rw e at h) in
      rw e (p, sym (reverse-cons c before rest) ∙ q, omega arith)
]

pieces_end :
    (before rest : Text) (m m' : Mode)
    → lex before rest m ≡ at_end m'
    → pieces before rest m ≡ ([], reverse before ++ rest, m')
unfolding pieces lex
pieces_end before [] m m' h = rw (append-nil (reverse before)) (cc)
pieces_end before (c ∷ rest) m m' h = elim (Bool-cases (ends m c)) [
  | inl e ↦ let h' : at_comma before rest ≡ at_end m' = rw e at h in cc
  | inr e ↦
      rw (e, ← reverse-cons c before rest)
        (pieces_end (c ∷ before) rest (next m before c) m' (rw e at h))
]

drop_after : (b : Text) (c : ℕ) (r : Text) → drop (length b + 1) (reverse b ++ c ∷ r) ≡ r
drop_after b c r =
    let n : length b + 1 ≡ length (reverse b ++ c ∷ []) =
      omega (arith, length-append (reverse b) (c ∷ []), length-reverse b) in
    rw (n, ← append_assoc (reverse b) (c ∷ []) r) (drop-append (reverse b ++ c ∷ []) r)

drop_all : (b : Text) → drop (length b) b ≡ []
drop_all [] = refl
drop_all (c ∷ b) = drop_all b

abbrev columns_of : Bool → Text → Columns
columns_of seen row =
    columns seen (pieces [] row outside).0 (pieces [] row outside).1 (pieces [] row outside).2

scan_field_lem :
    (c : ℕ) (s : Text) (at_eof : Bool)
    → scan_comma_separated_field (c ∷ s) at_eof ≡ field_of (c ∷ s) at_eof (lex [] (c ∷ s) outside)
unfolding scan_comma_separated_field
scan_field_lem c s at_eof =
    ap (field_of (c ∷ s) at_eof)
      (field_loop-eq-lex (length (c ∷ s)) [] (c ∷ s) outside (omega arith))

abbrev token_pass : Bool → Text → Text → Pass
token_pass true [] r = close none
token_pass false [] r = fill r
token_pass at_eof (c ∷ s) r = emit (c ∷ s) r

settle_token :
    (buf r : Text) (n : ℕ) (at_eof : Bool) (t : Text)
    → drop n buf ≡ r
    → length r < max_scan_token_size
    → settle buf at_eof (token_of n t) ≡ token_pass at_eof t r
unfolding settle token_of
settle_token buf r n true [] d h = refl
settle_token buf r n false [] d h = rw d (ground arith)
settle_token buf r n true (c ∷ s) d h = rw d refl
settle_token buf r n false (c ∷ s) d h = rw d refl

pass_comma :
    (c : ℕ) (s : Text) (at_eof : Bool) (b r : Text)
    → length (c ∷ s) < max_scan_token_size
    → lex [] (c ∷ s) outside ≡ at_comma b r
    → pass (c ∷ s) at_eof ≡ token_pass at_eof (trim_space (reverse b)) r
unfolding pass field_of
pass_comma c s at_eof b r h e =
    let (p, q, l) = pieces_cut [] (c ∷ s) outside b r e in
    rw (scan_field_lem c s at_eof, e)
      (settle_token (c ∷ s) r (length b + 1) at_eof (trim_space (reverse b))
        (ap (drop (length b + 1)) q ∙ drop_after b b',' r) (omega arith))

abbrev end_pass : Text → Mode → Pass
end_pass buf (inside q) = close (some (unclosed q))
end_pass buf outside = token_pass true (trim_space buf) []

pass_end :
    (c : ℕ) (s : Text) (m : Mode)
    → lex [] (c ∷ s) outside ≡ at_end m
    → pass (c ∷ s) true ≡ end_pass (c ∷ s) m
unfolding pass field_of settle
pass_end c s (inside q) e = rw (scan_field_lem c s true, e) refl
pass_end c s outside e =
    rw (scan_field_lem c s true, e)
      (settle_token (c ∷ s) [] (length (c ∷ s)) true (trim_space (c ∷ s)) (drop_all (c ∷ s))
        (omega arith))

pass_fill :
    (c : ℕ) (s : Text) (m : Mode)
    → length (c ∷ s) < max_scan_token_size
    → lex [] (c ∷ s) outside ≡ at_end m
    → pass (c ∷ s) false ≡ fill (c ∷ s)
unfolding pass field_of settle
pass_fill c s m h e = rw (scan_field_lem c s false, e) (ground arith)

FieldEnd-cases :
    (e : FieldEnd) → ((b : Text) × (r : Text) × (e ≡ at_comma b r)) ⊎ ((m : Mode) × (e ≡ at_end m))
FieldEnd-cases (at_comma b r) = inl (b, r, refl)
FieldEnd-cases (at_end m) = inr (m, refl)

-- One token, where `x` is what the rest gives, and `y` what follows a blank.
follow_token :
    (loop : Text → List Text → Bool → Scanned) (at_eof : Bool) (t r : Text) (x y : Columns)
    → loop r [] at_eof ≡ some x
    → follow loop [] at_eof (token_pass at_eof [] r) ≡ some y
    → follow loop [] at_eof (token_pass at_eof t r) ≡ some (cons_column t y x)
unfolding follow prepend
follow_token loop true [] r x y h k = k
follow_token loop false [] r x y h k = k
follow_token loop true (c ∷ s) r x y h k = rw h refl
follow_token loop false (c ∷ s) r x y h k = rw h refl

empty_at_eof : (rounds : ℕ) → 0 < rounds → scan rounds [] [] true ≡ some ([], none)
unfolding scan pass settle scan_comma_separated_field follow
empty_at_eof zero l = absurd (omega arith)
empty_at_eof (suc rounds) l = refl

-- The rest of a row whose end has been reported.
scan_at_eof :
    (rounds : ℕ) (buf : Text)
    → length buf < rounds
    → length buf < max_scan_token_size
    → scan rounds buf [] true ≡ some (columns_of true buf)
unfolding scan
scan_at_eof zero buf l h = absurd (omega arith)
scan_at_eof (suc rounds) [] l h =
    unfold pass settle scan_comma_separated_field follow pieces trim_space in refl
scan_at_eof (suc rounds) (c ∷ s) l h = elim (FieldEnd-cases (lex [] (c ∷ s) outside)) [
  | inl (b, r, e) ↦
      let (p, q, less) = pieces_cut [] (c ∷ s) outside b r e in
      rw (p, pass_comma c s true b r h e)
        (follow_token (scan rounds) true (trim_space (reverse b)) r _ _
          (scan_at_eof rounds r (omega arith) (omega arith)) (unfold follow in refl))
  | inr (outside, e) ↦
      rw (pieces_end [] (c ∷ s) outside outside e, pass_end c s outside e)
        (follow_token (scan rounds) true (trim_space (c ∷ s)) [] _ _
          (empty_at_eof rounds (omega arith)) (unfold follow in refl))
  | inr (inside q, e) ↦
      rw (pieces_end [] (c ∷ s) outside (inside q) e, pass_end c s (inside q) e)
        (unfold follow in refl)
]

ends_alike :
    (buf : Text) (m : Mode)
    → pieces [] buf outside ≡ ([], buf, m)
    → some (columns_of true buf) ≡ some (columns_of false buf)
ends_alike buf m e = rw e refl

-- A row of which no more is to be read, before its end has been reported.
scan_before_eof :
    (rounds : ℕ) (buf : Text)
    → length buf + 1 < rounds
    → length buf < max_scan_token_size
    → scan rounds buf [] false ≡ some (columns_of false buf)
unfolding scan
scan_before_eof zero buf l h = absurd (omega arith)
scan_before_eof (suc rounds) [] l h =
    unfold pass follow pieces trim_space in scan_at_eof rounds [] (omega arith) (omega arith)
scan_before_eof (suc rounds) (c ∷ s) l h = elim (FieldEnd-cases (lex [] (c ∷ s) outside)) [
  | inl (b, r, e) ↦
      let (p, q, less) = pieces_cut [] (c ∷ s) outside b r e in
      rw (p, pass_comma c s false b r h e)
        (follow_token (scan rounds) false (trim_space (reverse b)) r _ _
          (scan_before_eof rounds r (omega arith) (omega arith))
          (unfold follow in scan_at_eof rounds r (omega arith) (omega arith)))
  | inr (m, e) ↦ rw (pass_fill c s m h e) (
      unfold follow in
      scan_at_eof rounds (c ∷ s) (omega arith) h
      ∙ ends_alike (c ∷ s) m (pieces_end [] (c ∷ s) outside m e))
]

-- A row that is read at once gives the texts between its commas outside quotes, trimmed, an unclosed
-- quote being an error at its end; but a blank text gives no column, and once there have been two, the
-- rest of the row gives none either.
pub scan_row-columns :
    (row : Text)
    → length row < max_scan_token_size
    → scan_row row
      ≡ some (
          columns false
            (pieces [] row outside).0
            (pieces [] row outside).1
            (pieces [] row outside).2)
unfolding scan_row
scan_row-columns row h =
    rw rounds_step
      (unfold scan pass follow in scan_before_eof (suc (suc (length row))) row (omega arith) h)
  where
    rounds_step : length row + 3 ≡ suc (suc (suc (length row)))
    rounds_step = omega arith

-- Whatever follows them, of two blank columns at the beginning of a row on nothing is read, and there is
-- no error.
scan_row_lost :
    (rest : Text)
    → length rest + 2 < max_scan_token_size
    → scan_row (b',' ∷ b',' ∷ rest) ≡ some ([], none)
scan_row_lost rest h =
    scan_row-columns (b',' ∷ b',' ∷ rest) (omega arith) ∙ (unfold pieces ends trim_space in refl)
