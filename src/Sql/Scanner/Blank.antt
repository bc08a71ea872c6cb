-- ===== src/Sql/Scanner/Blank.antt =====
-- Where `SplitQueries` of prestoapi/query_splitter.go loses statements: an empty statement makes the
-- split function return no token, and at the end of the file the scanner then stops.
use pbench.Prelude.{
  suc, ◌+◌, ◌∙◌, false, ◌<◌, ◌≡◌, refl, true, false, none, some, Bool, [], ◌∷◌, arith, Text, length,
  trim_space, codes,
}
use pbench.Sql.Split.{scan_sql_stmt, token_of}
use pbench.Sql.Split.Lexer.{lex, ends}
use pbench.Sql.Split.Contract.{scan_sql_stmt_found}
use pbench.Sql.Scanner.{
  split, settle, pass, follow, total, max_token_size, split_queries, fill, close,
}

-- A buffer that begins with an empty statement: the split function skips it and returns no token.
split_blank : (rest : Text) (at_eof : Bool) → scan_sql_stmt (b';' ∷ rest) at_eof ≡ (1, none)
split_blank rest at_eof =
    scan_sql_stmt_found (b';' ∷ rest) [] rest at_eof (unfold lex ends in refl)
    ∙ (unfold token_of trim_space in refl)

pass_blank : (rest : Text) → length rest < max_token_size → pass (b';' ∷ rest) false ≡ fill rest
unfolding pass settle split
pass_blank rest h = rw (split_blank rest false) (ground arith)

pass_blank_at_eof : (rest : Text) → pass (b';' ∷ rest) true ≡ close none
unfolding pass settle split
pass_blank_at_eof rest = rw (split_blank rest true)

pass_start : pass [] false ≡ fill []
unfolding pass settle split
pass_start = refl

-- A file that is read at once and begins with two empty statements yields no statement and no error,
-- whatever stands behind them.
pub split_queries_blank :
    (file : Text)
    → length file + 1 < max_token_size
    → split_queries ((b';' ∷ b';' ∷ file) ∷ []) ≡ some ([], none)
unfolding split_queries total
split_queries_blank file h =
    let rounds : length (b';' ∷ b';' ∷ file) + 1 + 2 ≡ suc (suc (suc (length file + 2))) =
      omega arith in
    rw rounds (unfold follow in simp (pass_blank (b';' ∷ file) (omega arith), pass_blank_at_eof))

lost : split_queries (codes "select 1;;;select 2" ∷ []) ≡ some (codes "select 1" ∷ [], none)
unfolding split_queries scan_sql_stmt trim_space
lost = refl

kept :
    split_queries (codes "select 1;;" ∷ codes ";select 2" ∷ [])
    ≡ some (codes "select 1" ∷ codes "select 2" ∷ [], none)
unfolding split_queries scan_sql_stmt trim_space
kept = refl
