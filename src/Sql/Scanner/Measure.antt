-- ===== src/Sql/Scanner/Measure.antt =====
-- The scanner of prestoapi/query_splitter.go ends: each pass uses up bytes, a read, or the end of
-- the file.
use pbench.Prelude.{
  ℕ, zero, suc, ◌+◌, ◌≤◌, ◌<◌, ◌≡◌, refl, Bool, true, false, Option, none, some, List, [], ◌∷◌,
  ◌++◌, arith, Text, length, length-append, length-drop,
}
use pbench.Sql.Split.Contract.{Advances, scan_sql_stmt-Advances}
use pbench.Sql.Scanner.{
  ScanError, Pass, emit, fill, close, split, settle, pass, prepend, follow, scan, total,
  split_queries,
}

abbrev pub Shrinks : Text → Bool → Pass → Type 0
Shrinks buf at_eof (emit t rest) = length rest < length buf
Shrinks buf at_eof (fill rest) = (length rest ≤ length buf) × (at_eof ≡ false)
Shrinks buf at_eof (close e) = Unit

settle-Shrinks :
    (buf : Text) (at_eof : Bool) (s : ℕ × Option Text)
    → Advances buf at_eof s
    → Shrinks buf at_eof (settle buf at_eof s)
unfolding settle
settle-Shrinks buf at_eof (n, some t) h = omega (arith, length-drop n buf, h.1 (λ x. cc))
settle-Shrinks buf true (n, none) h = tt
settle-Shrinks buf false (n, none) h = ground (arith, length-drop n buf)

split-Advances : (buf : Text) (at_eof : Bool) → Advances buf at_eof (split buf at_eof)
unfolding split
split-Advances [] false = (omega arith, λ x. absurd (x refl), λ x. cc, λ x. cc)
split-Advances [] true = scan_sql_stmt-Advances [] true
split-Advances (c ∷ s) at_eof = scan_sql_stmt-Advances (c ∷ s) at_eof

pass-Shrinks : (buf : Text) (at_eof : Bool) → Shrinks buf at_eof (pass buf at_eof)
unfolding pass
pass-Shrinks buf at_eof = settle-Shrinks buf at_eof (split buf at_eof) (split-Advances buf at_eof)

-- One pass, with `pass` shut.
pub scan_step :
    (rounds : ℕ) (buf : Text) (reads : List Text) (at_eof : Bool)
    → scan (suc rounds) buf reads at_eof ≡ follow (scan rounds) reads at_eof (pass buf at_eof)
unfolding scan
scan_step rounds buf reads at_eof = refl

abbrev pub left : Bool → ℕ
left true = 0
left false = 1

abbrev Ends : Option (List Text × Option ScanError) → Type 0
Ends result = (r : List Text × Option ScanError) × (result ≡ some r)

prepend-Ends : (t : Text) (r : Option (List Text × Option ScanError)) → Ends r → Ends (prepend t r)
unfolding prepend
prepend-Ends t none (r, e) = cc
prepend-Ends t (some (ts, e)) h = ((t ∷ ts, e), refl)

follow-Ends :
    (rounds : ℕ) (buf : Text) (reads : List Text) (at_eof : Bool) (p : Pass)
    → ((buf : Text) (reads : List Text) (at_eof : Bool)
        → length buf + total reads + left at_eof < rounds
        → Ends (scan rounds buf reads at_eof))
    → length buf + total reads + left at_eof < suc rounds
    → Shrinks buf at_eof p
    → Ends (follow (scan rounds) reads at_eof p)
unfolding follow total
follow-Ends rounds buf reads at_eof (emit t rest) ih h s =
    prepend-Ends t _ (ih rest reads at_eof (omega arith))
follow-Ends rounds buf [] at_eof (fill rest) ih h (s, e) = ih rest [] true (ground arith)
follow-Ends rounds buf (r ∷ reads) at_eof (fill rest) ih h (s, e) =
    ih (rest ++ r) reads false (ground (arith, length-append rest r))
follow-Ends rounds buf reads at_eof (close e) ih h s = (([], e), refl)

scan-Ends :
    (rounds : ℕ) (buf : Text) (reads : List Text) (at_eof : Bool)
    → length buf + total reads + left at_eof < rounds
    → Ends (scan rounds buf reads at_eof)
unfolding scan
scan-Ends zero buf reads at_eof h = absurd (omega arith)
scan-Ends (suc rounds) buf reads at_eof h =
    follow-Ends rounds buf reads at_eof (pass buf at_eof) (scan-Ends rounds) h
      (pass-Shrinks buf at_eof)

-- However the file is cut into reads, `SplitQueries` returns: the rounds never run out.
pub split_queries-Ends :
    (reads : List Text) → (r : List Text × Option ScanError) × (split_queries reads ≡ some r)
unfolding split_queries
split_queries-Ends reads = scan-Ends (total reads + 2) [] reads false (omega arith)
