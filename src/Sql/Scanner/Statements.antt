-- ===== src/Sql/Scanner/Statements.antt =====
-- `SplitQueries` of prestoapi/query_splitter.go on files without empty statements.
use mathlib.Core.List.{reverse}
use pbench.Prelude.{
  ℕ, zero, suc, ◌+◌, ◌<◌, ◌≡◌, ◌≢◌, refl, Bool, true, false, none, some, List, [], ◌∷◌, ◌++◌, arith,
  Text, length, length-append, drop, trim_space, append-nil, append_assoc, Option-cases, inl, inr,
  ◌⊎◌, ap, length-reverse, drop-append,
}
use pbench.Sql.Split.{scan_sql_stmt, plain, token_of}
use pbench.Sql.Split.Lexer.{lex}
use pbench.Sql.Split.Contract.{
  scan_sql_stmt_found, scan_sql_stmt_last, scan_sql_stmt_more, lex-append, lex-partition,
  length-lex,
}
use pbench.Sql.Scanner.Measure.{scan_step, left}
use pbench.Sql.Scanner.{
  emit, fill, close, split, settle, pass, prepend, follow, scan, total, split_queries,
  max_token_size,
}

-- A text and its statements, cut at the semicolons that the reference finds. There is no rule for an
-- empty statement in front of a semicolon.
pub data Statements : Text → List Text → Type 0 where
  semicolon :
      {bytes : Text} (b r : Text) {ts : List Text}
      → lex [] bytes false plain ≡ some (b, r)
      → trim_space (reverse b) ≢ []
      → Statements r ts
      → Statements bytes (trim_space (reverse b) ∷ ts)
  last :
      (bytes : Text)
      → lex [] bytes false plain ≡ none
      → trim_space bytes ≢ []
      → Statements bytes (trim_space bytes ∷ [])
  done :
      (bytes : Text) → lex [] bytes false plain ≡ none → trim_space bytes ≡ [] → Statements bytes []

invert_semicolon :
    {bytes : Text} {ts : List Text} (b r : Text)
    → Statements bytes ts
    → lex [] bytes false plain ≡ some (b, r)
    → (us : List Text) × (trim_space (reverse b) ≢ [])
      × (ts ≡ trim_space (reverse b) ∷ us)
      × Statements r us
invert_semicolon b r (semicolon b' r' {ts = us} e h s) k =
    let e' : b' ≡ b = cc in let e'' : r' ≡ r = cc in (us, rw (← e') h, rw e', rw (← e'') s)
invert_semicolon b r (last bytes e h) k = absurd (cc)
invert_semicolon b r (done bytes e h) k = absurd (cc)

invert_last :
    {bytes : Text} {ts : List Text}
    → Statements bytes ts
    → lex [] bytes false plain ≡ none
    → ((trim_space bytes ≢ []) × (ts ≡ trim_space bytes ∷ []))
      ⊎ ((trim_space bytes ≡ []) × (ts ≡ []))
invert_last (semicolon b r e h s) k = absurd (cc)
invert_last (last bytes e h) k = inl (h, refl)
invert_last (done bytes e h) k = inr (h, refl)

drop_semicolon : (b r : Text) → drop (length b + 1) (b ++ b';' ∷ r) ≡ r
drop_semicolon [] r = refl
drop_semicolon (c ∷ b) r =
    let e : length (c ∷ b) + 1 ≡ suc (length b + 1) = omega arith in rw e (drop_semicolon b r)

drop-lex :
    (bytes b r : Text) → lex [] bytes false plain ≡ some (b, r) → drop (length b + 1) bytes ≡ r
drop-lex bytes b r h =
    rw (← lex-partition [] bytes false plain b r h, ← length-reverse b)
      (drop_semicolon (reverse b) r)

token_of_nonempty : (n : ℕ) (s : Text) → s ≢ [] → token_of n s ≡ (n, some s)
unfolding token_of
token_of_nonempty n [] h = absurd (h refl)
token_of_nonempty n (c ∷ s) h = refl

split-scan_sql_stmt :
    (buf b r : Text) (at_eof : Bool)
    → lex [] buf false plain ≡ some (b, r)
    → split buf at_eof ≡ scan_sql_stmt buf at_eof
unfolding split
split-scan_sql_stmt [] b r at_eof h = unfold lex in cc
split-scan_sql_stmt (c ∷ s) b r at_eof h = refl

pass_emit :
    (buf b r : Text) (at_eof : Bool)
    → lex [] buf false plain ≡ some (b, r)
    → trim_space (reverse b) ≢ []
    → pass buf at_eof ≡ emit (trim_space (reverse b)) r
unfolding pass settle
pass_emit buf b r at_eof h k =
    rw
      (
        split-scan_sql_stmt buf b r at_eof h,
        scan_sql_stmt_found buf b r at_eof h,
        token_of_nonempty _ _ k,
      )
      (ap (emit (trim_space (reverse b))) (drop-lex buf b r h))

pass_fill :
    (buf : Text)
    → lex [] buf false plain ≡ none
    → length buf < max_token_size
    → pass buf false ≡ fill buf
unfolding pass settle split
pass_fill [] h k = refl
pass_fill (c ∷ s) h k = rw (scan_sql_stmt_more (c ∷ s) h) (ground arith)

pass_last :
    (buf : Text)
    → lex [] buf false plain ≡ none
    → trim_space buf ≢ []
    → pass buf true ≡ emit (trim_space buf) []
unfolding pass settle split
pass_last [] h k = absurd (k (unfold trim_space in refl))
pass_last (c ∷ s) h k =
    rw (scan_sql_stmt_last (c ∷ s) h, token_of_nonempty _ _ k)
      (ap (emit (trim_space (c ∷ s))) (rw append-nil at (drop-append (c ∷ s) [])))

pass_done :
    (buf : Text) → lex [] buf false plain ≡ none → trim_space buf ≡ [] → pass buf true ≡ close none
unfolding pass settle split
pass_done [] h k = unfold scan_sql_stmt in refl
pass_done (c ∷ s) h k = rw (scan_sql_stmt_last (c ∷ s) h, k) (unfold token_of in refl)

abbrev pub concat : List Text → Text
concat [] = []
concat (r ∷ reads) = r ++ concat reads

abbrev Scans : ℕ → Text → List Text → Bool → List Text → Type 0
Scans rounds buf reads at_eof ts = scan rounds buf reads at_eof ≡ some (ts, none)

abbrev ScansAll : ℕ → Type 0
ScansAll rounds =
    (buf : Text) (reads : List Text) (at_eof : Bool) (ts : List Text)
    → length buf + total reads + left at_eof < rounds
    → length buf + total reads < max_token_size
    → (at_eof ≡ true → reads ≡ [])
    → Statements (buf ++ concat reads) ts
    → Scans rounds buf reads at_eof ts

positive :
    (buf : Text) (rounds : ℕ)
    → length buf < suc rounds
    → trim_space buf ≢ []
    → 0 + total [] + 0 < rounds
unfolding total
positive [] rounds h k = absurd (k (unfold trim_space in refl))
positive (c ∷ s) rounds h k = omega arith

module _ (rounds : ℕ) (ih : ScansAll rounds) where
  scan_semicolon :
      (buf : Text) (reads : List Text) (at_eof : Bool) (ts : List Text) (b r : Text)
      → length buf + total reads + left at_eof < suc rounds
      → length buf + total reads < max_token_size
      → (at_eof ≡ true → reads ≡ [])
      → Statements (buf ++ concat reads) ts
      → lex [] buf false plain ≡ some (b, r)
      → Scans (suc rounds) buf reads at_eof ts
  scan_semicolon buf reads at_eof ts b r h small eof s e =
      let (us, k, eq, s') =
        invert_semicolon b (r ++ concat reads) s
          (lex-append [] buf false plain b r (concat reads) e) in
      let shorter = length-lex buf b r e in
      let rest = ih r reads at_eof us (omega arith) (omega arith) eof s' in
      rw (scan_step, pass_emit buf b r at_eof e k) (unfold follow prepend in rw rest (cc))

  scan_fill :
      (buf : Text) (reads : List Text) (ts : List Text)
      → length buf + total reads + 1 < suc rounds
      → length buf + total reads < max_token_size
      → Statements (buf ++ concat reads) ts
      → lex [] buf false plain ≡ none
      → Scans (suc rounds) buf reads false ts
  unfolding total
  scan_fill buf [] ts h small s e =
      rw (scan_step, pass_fill buf e (omega arith))
        (unfold follow in ih buf [] true ts (omega arith) (omega arith) (λ _. refl) s)
  scan_fill buf (r ∷ reads) ts h small s e =
      rw (scan_step, pass_fill buf e (omega arith))
        (unfold follow in
          ih (buf ++ r) reads false ts (omega (arith, length-append buf r))
            (omega (arith, length-append buf r)) (λ x. cc) (rw append_assoc s))

  scan_last :
      (buf : Text) (ts : List Text)
      → length buf < suc rounds
      → Statements (buf ++ []) ts
      → lex [] buf false plain ≡ none
      → Scans (suc rounds) buf [] true ts
  unfolding total
  scan_last buf ts h s e = elim (invert_last (rw append-nil at s) e) [
    | inl (k, eq) ↦
        let rest =
          ih [] [] true [] (positive buf rounds h k) (omega arith) (λ _. refl)
            (done [] (unfold lex in refl) (unfold trim_space in refl)) in
        rw (scan_step, pass_last buf e k) (unfold follow prepend in rw rest (cc))
    | inr (k, eq) ↦ rw (scan_step, pass_done buf e k) (unfold follow in cc)
  ]

  scan_none :
      (buf : Text) (reads : List Text) (at_eof : Bool) (ts : List Text)
      → length buf + total reads + left at_eof < suc rounds
      → length buf + total reads < max_token_size
      → (at_eof ≡ true → reads ≡ [])
      → Statements (buf ++ concat reads) ts
      → lex [] buf false plain ≡ none
      → Scans (suc rounds) buf reads at_eof ts
  scan_none buf reads false ts h small eof s e = scan_fill buf reads ts h small s e
  scan_none buf [] true ts h small eof s e = scan_last buf ts (omega arith) s e
  scan_none buf (r ∷ reads) true ts h small eof s e = absurd (cc (eof refl))

scan_all : (rounds : ℕ) → ScansAll rounds
scan_all zero buf reads at_eof ts h small eof s = absurd (omega arith)
scan_all (suc rounds) buf reads at_eof ts h small eof s =
    elim (Option-cases (lex [] buf false plain)) [
      | inr (p, e) ↦
          scan_semicolon rounds (scan_all rounds) buf reads at_eof ts p.0 p.1 h small eof s e
      | inl e ↦ scan_none rounds (scan_all rounds) buf reads at_eof ts h small eof s e
    ]

-- A file of less than a megabyte without an empty statement in front of a semicolon yields its
-- statements, in order and without an error, however it is cut into reads.
pub split_queries-Statements :
    (reads : List Text) (ts : List Text)
    → Statements (concat reads) ts
    → total reads < max_token_size
    → split_queries reads ≡ some (ts, none)
unfolding split_queries
split_queries-Statements reads ts s h =
    scan_all (total reads + 2) [] reads false ts (omega arith) (omega arith) (λ x. cc) s
