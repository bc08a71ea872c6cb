-- ===== src/Sql/Split.antt =====
-- `ScanSqlStmt` of prestoapi/query_splitter.go. The loop's `pos` cuts the data in two: the bytes
-- before it, nearest first, and the bytes from it on.
pub mod Lexer
pub mod Contract
use mathlib.Core.List.{reverse}
use pbench.Prelude.{
  ℕ, zero, suc, ◌+◌, ◌%◌, ◌≡◌, refl, Bool, true, false, ◌&&◌, ◌||◌, Option, none, some, List, [],
  ◌∷◌, Text, codes, ◌==◌, if◌then◌else◌, length, trim_space,
}

-- `inQuote`, `inComment` and `inMultilineComment`, of which at most one is set.
pub data Mode : Type 0 where
  plain : Mode
  quoted : ℕ → Mode
  comment : Mode
  multiline : Mode

-- `bytes.IndexByte(data[pos:], c)` and `IndexAny`, with `pos += i`; nothing is left if none is found.
unfoldable pub seek : (ℕ → Bool) → Text → Text → Text × Text
seek p before [] = (before, [])
seek p before (c ∷ rest) =
    let further = seek p (c ∷ before) rest in if p c then (before, c ∷ rest) else further

-- The loop that counts `nBackslashes` backwards from the byte before `pos`.
unfoldable pub backslashes : Text → ℕ
backslashes [] = 0
backslashes (c ∷ before) = let more = suc (backslashes before) in if c == b'\\' then more else 0

-- The characters of "`-'\";/`".
pub is_mark : ℕ → Bool
is_mark c = c == b'-' || c == b'\'' || c == b'"' || c == b';' || c == b'/'

-- What one round of the loop does, its `pos++` included.
pub data Round : Type 0 where
  stop : Round
  found : Text → Text → Round
  go : Text → Text → Mode → Round

comment_round : Text × Text → Round
comment_round (before, []) = stop
comment_round (before, c ∷ rest) = go (c ∷ before) rest plain

multiline_round : Text × Text → Round
multiline_round (before, []) = stop
multiline_round (before, c ∷ []) = stop
multiline_round (before, c ∷ d ∷ rest) =
    if d == b'/' then go (d ∷ c ∷ before) rest plain else go (c ∷ before) (d ∷ rest) multiline

quoted_round : ℕ → Text × Text → Round
quoted_round q (before, []) = stop
quoted_round q (before, c ∷ rest) =
    if backslashes before % 2 == 0
    then go (c ∷ before) rest plain
    else go (c ∷ before) rest (quoted q)

-- The cases of `-` and `/`: `c` and then `d` open a comment of mode `m`.
open_comment : ℕ → ℕ → Mode → Text → Text → Round
open_comment c d m before [] = go (c ∷ before) [] plain
open_comment c d m before (e ∷ rest) =
    if e == d then go (e ∷ c ∷ before) rest m else go (c ∷ before) (e ∷ rest) plain

plain_round : Text × Text → Round
unfolding open_comment
plain_round (before, []) = stop
plain_round (before, c ∷ rest) =
    if c == b'-'
    then open_comment c b'-' comment before rest
    else if c == b'/'
    then open_comment c b'*' multiline before rest
    else if c == b';'
    then found before rest
    else go (c ∷ before) rest (quoted c)

pub round : Text → Text → Mode → Round
unfolding plain_round quoted_round comment_round multiline_round seek is_mark backslashes
round before rest plain = plain_round (seek is_mark before rest)
round before rest (quoted q) = quoted_round q (seek (λ c. c == q) before rest)
round before rest comment = comment_round (seek (λ c. c == b'\n') before rest)
round before rest multiline = multiline_round (seek (λ c. c == b'*') before rest)

-- The loop, with the rounds left: what stands before and behind the semicolon at which it returns.
pub continue : (Text → Text → Mode → Option (Text × Text)) → Round → Option (Text × Text)
continue loop stop = none
continue loop (found before rest) = some (before, rest)
continue loop (go before rest m) = loop before rest m

pub scan_loop : ℕ → Text → Text → Mode → Option (Text × Text)
unfolding round continue
scan_loop zero before rest m = none
scan_loop (suc rounds) before rest m = continue (scan_loop rounds) (round before rest m)

unfoldable pub token_of : ℕ → Text → ℕ × Option Text
token_of advance [] = (advance, none)
token_of advance (c ∷ s) = (advance, some (c ∷ s))

pub finish : Text → Bool → Option (Text × Text) → ℕ × Option Text
unfolding token_of
finish bytes at_eof (some (before, _)) = token_of (length before + 1) (trim_space (reverse before))
finish bytes true none = token_of (length bytes) (trim_space bytes)
finish bytes false none = (0, none)

abbrev is_empty : Text → Bool
is_empty [] = true
is_empty (c ∷ s) = false

-- `ScanSqlStmt`: how far to advance, and the statement, if there is one. It returns no error.
unfoldable pub scan_sql_stmt : Text → Bool → ℕ × Option Text
unfolding finish scan_loop
scan_sql_stmt bytes at_eof =
    if at_eof && is_empty bytes
    then (0, none)
    else finish bytes at_eof (scan_loop (length bytes) [] bytes plain)

two_statements :
    scan_sql_stmt (codes "select ';' -- a;\n; b") false ≡ (18, some (codes "select ';' -- a;"))
unfolding scan_sql_stmt trim_space
two_statements = refl
