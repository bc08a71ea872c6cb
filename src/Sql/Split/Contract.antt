-- ===== src/Sql/Split/Contract.antt =====
-- What `bufio.Scanner` asks of a split function, and what the statements are.
use mathlib.Core.List.{reverse}
use pbench.Prelude.{
  ℕ, suc, ◌+◌, ◌≤◌, ◌<◌, ◌≡◌, ◌≢◌, refl, ap, ◌∙◌, sym, Bool, true, false, Option, none, some, [],
  ◌∷◌, ◌++◌, arith, Text, length, Bool-cases, inl, inr, Option-cases, trim_space, reverse-cons,
  length-reverse, length-append,
}
use pbench.Sql.Split.{Mode, plain, scan_loop, token_of, finish, scan_sql_stmt}
use pbench.Sql.Split.Lexer.{lex, ends, skips, next, scan_loop-eq-lex}

ends_semicolon : (m : Mode) (c : ℕ) → ends m c ≡ true → c ≡ b';'
unfolding ends
ends_semicolon plain c h = ground arith
ends_semicolon _ c h = cc

-- The bytes before the semicolon, the semicolon and the bytes behind it are the data.
pub lex-partition :
    (before rest : Text) (skip : Bool) (m : Mode) (b r : Text)
    → lex before rest skip m ≡ some (b, r)
    → reverse b ++ b';' ∷ r ≡ reverse before ++ rest
unfolding lex
lex-partition before [] skip m b r h = cc
lex-partition before (c ∷ rest) true m b r h =
    lex-partition (c ∷ before) rest false m b r h ∙ reverse-cons c before rest
lex-partition before (c ∷ rest) false m b r h = elim (Bool-cases (ends m c)) [
  | inl e ↦ cc (ends_semicolon m c e, rw e at h)
  | inr e ↦
      lex-partition (c ∷ before) rest (skips m c rest) (next m before c rest) b r (rw e at h)
      ∙ reverse-cons c before rest
]

skips-append :
    (m : Mode) (c d : ℕ) (rest more : Text) → skips m c (d ∷ rest ++ more) ≡ skips m c (d ∷ rest)
unfolding skips
skips-append plain c d rest more = refl
skips-append _ c d rest more = refl

next-append :
    (m : Mode) (before : Text) (c d : ℕ) (rest more : Text)
    → next m before c (d ∷ rest ++ more) ≡ next m before c (d ∷ rest)
unfolding next
next-append plain before c d rest more = refl
next-append _ before c d rest more = refl

-- A semicolon that was found stays where it is when more data arrives.
pub lex-append :
    (before rest : Text) (skip : Bool) (m : Mode) (b r more : Text)
    → lex before rest skip m ≡ some (b, r)
    → lex before (rest ++ more) skip m ≡ some (b, r ++ more)
unfolding lex
lex-append before [] skip m b r more h = cc
lex-append before (c ∷ rest) true m b r more h = lex-append (c ∷ before) rest false m b r more h
lex-append before (c ∷ []) false m b r more h = elim (Bool-cases (ends m c)) [
  | inl e ↦ rw e (cc (rw e at h))
  | inr e ↦ absurd (cc (rw e at h))
]
lex-append before (c ∷ d ∷ rest) false m b r more h = elim (Bool-cases (ends m c)) [
  | inl e ↦ rw e (cc (rw e at h))
  | inr e ↦
      rw (e, skips-append m c d rest more, next-append m before c d rest more)
        (lex-append (c ∷ before) (d ∷ rest) (skips m c (d ∷ rest)) (next m before c (d ∷ rest)) b r
          more (rw e at h))
]

-- The cases of `ScanSqlStmt`, by the reference.
pub scan_sql_stmt_found :
    (bytes b r : Text) (at_eof : Bool)
    → lex [] bytes false plain ≡ some (b, r)
    → scan_sql_stmt bytes at_eof ≡ token_of (length b + 1) (trim_space (reverse b))
unfolding scan_sql_stmt finish
scan_sql_stmt_found [] b r at_eof h = unfold lex in cc
scan_sql_stmt_found (c ∷ s) b r true h =
    rw (scan_loop-eq-lex (length (c ∷ s)) [] (c ∷ s) plain (omega arith), h)
scan_sql_stmt_found (c ∷ s) b r false h =
    rw (scan_loop-eq-lex (length (c ∷ s)) [] (c ∷ s) plain (omega arith), h)

pub scan_sql_stmt_last :
    (bytes : Text)
    → lex [] bytes false plain ≡ none
    → scan_sql_stmt bytes true ≡ token_of (length bytes) (trim_space bytes)
unfolding scan_sql_stmt finish
scan_sql_stmt_last [] h = unfold trim_space token_of in refl
scan_sql_stmt_last (c ∷ s) h =
    rw (scan_loop-eq-lex (length (c ∷ s)) [] (c ∷ s) plain (omega arith), h)

pub scan_sql_stmt_more :
    (bytes : Text) → lex [] bytes false plain ≡ none → scan_sql_stmt bytes false ≡ (0, none)
unfolding scan_sql_stmt finish
scan_sql_stmt_more [] h = unfold scan_loop in refl
scan_sql_stmt_more (c ∷ s) h =
    rw (scan_loop-eq-lex (length (c ∷ s)) [] (c ∷ s) plain (omega arith), h)

pub length-lex :
    (bytes b r : Text)
    → lex [] bytes false plain ≡ some (b, r)
    → length b + 1 + length r ≡ length bytes
length-lex bytes b r h = omega (
  arith,
  ap length (lex-partition [] bytes false plain b r h),
  length-reverse b,
  length-append (reverse b) (b';' ∷ r),
)

abbrev pub Advances : Text → Bool → ℕ × Option Text → Type 0
Advances bytes at_eof (n, token) =
    (n ≤ length bytes)
    × (token ≢ none → 0 < n)
    × (at_eof ≡ true → bytes ≢ [] → 0 < n)
    × (token ≢ some [])

token_of-Advances :
    (bytes : Text) (at_eof : Bool) (n : ℕ) (s : Text)
    → n ≤ length bytes
    → 0 < n
    → Advances bytes at_eof (token_of n s)
unfolding token_of
token_of-Advances bytes at_eof n [] h k = (h, λ x. k, λ _ _. k, λ x. cc)
token_of-Advances bytes at_eof n (c ∷ s) h k = (h, λ _. k, λ _ _. k, λ x. cc)

last-Advances :
    (bytes : Text) (at_eof : Bool)
    → lex [] bytes false plain ≡ none
    → Advances bytes at_eof (scan_sql_stmt bytes at_eof)
last-Advances bytes false e =
    rw (scan_sql_stmt_more bytes e) (omega arith, λ x. absurd (x refl), λ x. cc, λ x. cc)
last-Advances [] true e = rw (scan_sql_stmt_last [] e) (
    unfold trim_space token_of in
    (omega arith, λ x. absurd (x refl), λ _ x. absurd (x refl), λ x. cc))
last-Advances (c ∷ s) true e = rw (scan_sql_stmt_last (c ∷ s) e) (
    token_of-Advances (c ∷ s) true (length (c ∷ s)) (trim_space (c ∷ s)) (omega arith)
      (omega arith))

-- The contract of a split function: it never advances past the data, it advances whenever it returns
-- a statement or is at the end of a file with data left, and it returns no empty statement.
pub scan_sql_stmt-Advances :
    (bytes : Text) (at_eof : Bool) → Advances bytes at_eof (scan_sql_stmt bytes at_eof)
scan_sql_stmt-Advances bytes at_eof = elim (Option-cases (lex [] bytes false plain)) [
  | inl e ↦ last-Advances bytes at_eof e
  | inr (p, e) ↦ rw (scan_sql_stmt_found bytes p.0 p.1 at_eof e) (
      token_of-Advances bytes at_eof (length p.0 + 1) (trim_space (reverse p.0))
        (omega (arith, length-lex bytes p.0 p.1 e)) (omega arith))
]

-- A call that advances says the same of every longer input, at the end of the file or not.
pub scan_sql_stmt-append :
    (bytes more : Text) (at_eof : Bool) (n : ℕ) (token : Option Text)
    → scan_sql_stmt bytes false ≡ (suc n, token)
    → scan_sql_stmt (bytes ++ more) at_eof ≡ (suc n, token)
scan_sql_stmt-append bytes more at_eof n token h = elim (Option-cases (lex [] bytes false plain)) [
  | inl e ↦ ground (arith, scan_sql_stmt_more bytes e)
  | inr (p, e) ↦
      scan_sql_stmt_found (bytes ++ more) p.0 (p.1 ++ more) at_eof
        (lex-append [] bytes false plain p.0 p.1 more e)
      ∙ sym (scan_sql_stmt_found bytes p.0 p.1 false e)
      ∙ h
]
