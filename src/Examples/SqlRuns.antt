-- ===== src/Examples/SqlRuns.antt =====
-- Runs of the splitter of prestoapi/query_splitter.go.
use pbench.Prelude.{
  ◌≡◌, refl, true, false, none, some, [], ◌∷◌, arith, Text, codes, Option, trim_space, List,
}
use pbench.Sql.Split.{scan_loop, scan_sql_stmt, plain}
use pbench.Sql.Split.Lexer.{lex, ends, skips, next, scan_loop-eq-lex}
use pbench.Sql.Split.Contract.{Advances, scan_sql_stmt-Advances}
use pbench.Sql.Scanner.{ScanError, split_queries, total}
use pbench.Sql.Scanner.Measure.{split_queries-Ends}
use pbench.Sql.Scanner.Statements.{Statements, semicolon, last, split_queries-Statements}
use pbench.Sql.Scanner.Blank.{split_queries_blank}

abbrev quoted_text : Text
quoted_text = codes "a ';' /* ; */; b"

scan_loop-eq-lex_example : scan_loop 16 [] quoted_text plain ≡ lex [] quoted_text false plain
scan_loop-eq-lex_example = scan_loop-eq-lex 16 [] quoted_text plain (omega arith)

scan_sql_stmt-Advances_example : Advances quoted_text true (scan_sql_stmt quoted_text true)
scan_sql_stmt-Advances_example = scan_sql_stmt-Advances quoted_text true

split_queries-Ends_example :
    (r : List Text × Option ScanError) × (split_queries (quoted_text ∷ codes ";" ∷ []) ≡ some r)
split_queries-Ends_example = split_queries-Ends (quoted_text ∷ codes ";" ∷ [])

a_and_b : Statements (codes "a; b") (codes "a" ∷ codes "b" ∷ [])
unfolding lex trim_space ends skips next
a_and_b = semicolon (codes "a") (codes " b") refl (λ x. cc) (last (codes " b") refl (λ x. cc))

split_queries-Statements_example :
    split_queries (codes "a" ∷ codes "; b" ∷ []) ≡ some (codes "a" ∷ codes "b" ∷ [], none)
split_queries-Statements_example =
    split_queries-Statements (codes "a" ∷ codes "; b" ∷ []) (codes "a" ∷ codes "b" ∷ []) a_and_b
      (unfold total in omega arith)

split_queries_blank_example : split_queries (codes ";;select 1" ∷ []) ≡ some ([], none)
split_queries_blank_example = split_queries_blank (codes "select 1") (omega arith)
