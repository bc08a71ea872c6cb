-- ===== src/Save/Idents.antt =====
-- The identifiers of cmd/save/table_summary.go, and a reader of them.
use pbench.Prelude.{
  ℕ, ◌≡◌, refl, ap, ◌∙◌, Bool, true, false, Bool-cases, inl, inr, Option, none, some, [], ◌∷◌, ◌++◌,
  append_assoc, Text, ◌==◌, if◌then◌else◌,
}

double_quotes : Text → Text
double_quotes [] = []
double_quotes (c ∷ s) = let rest = double_quotes s in if c == b'"' then c ∷ c ∷ rest else c ∷ rest

-- `sqlIdent`
unfoldable pub sql_ident : Text → Text
unfolding double_quotes
sql_ident name = b'"' ∷ (double_quotes name ++ b'"' ∷ [])

-- `fullyQualifiedTableName`
unfoldable pub qualified_name : Text → Text → Text → Text
unfolding sql_ident
qualified_name catalog schema name =
    sql_ident catalog ++ b'.' ∷ (sql_ident schema ++ b'.' ∷ sql_ident name)

abbrev pub with_byte : ℕ → Option (Text × Text) → Option (Text × Text)
with_byte c none = none
with_byte c (some (s, rest)) = some (c ∷ s, rest)

-- A quoted identifier as SQL reads it, behind its first quote: up to the first quote that is not one of a
-- pair. The second is what stands behind it. The test tells whether a quote stands in front.
pub read_quoted : Bool → Text → Option (Text × Text)
read_quoted false [] = none
read_quoted true [] = some ([], [])
read_quoted false (c ∷ s) = elim (c == b'"') [
  | true ↦ read_quoted true s
  | false ↦ with_byte c (read_quoted false s)
]
read_quoted true (c ∷ s) = elim (c == b'"') [
  | true ↦ with_byte c (read_quoted false s)
  | false ↦ some ([], c ∷ s)
]

abbrev pub read_ident : Text → Option (Text × Text)
read_ident [] = none
read_ident (c ∷ s) = if c == b'"' then read_quoted false s else none

-- What stands behind a dot.
abbrev behind_dot : Option (Text × Text) → Option (Text × Text)
behind_dot none = none
behind_dot (some (s, [])) = none
behind_dot (some (s, c ∷ rest)) = if c == b'.' then some (s, rest) else none

abbrev named : Text → Text → Option (Text × Text) → Option (Text × Text × Text × Text)
named catalog schema none = none
named catalog schema (some (name, rest)) = some (catalog, schema, name, rest)

abbrev with_schema : Text → Option (Text × Text) → Option (Text × Text × Text × Text)
with_schema catalog none = none
with_schema catalog (some (schema, t)) = named catalog schema (read_ident t)

abbrev with_catalog : Option (Text × Text) → Option (Text × Text × Text × Text)
with_catalog none = none
with_catalog (some (catalog, t)) = with_schema catalog (behind_dot (read_ident t))

-- The parts of a name that dots separate, and what stands behind it.
pub read_name : Text → Option (Text × Text × Text × Text)
read_name t = with_catalog (behind_dot (read_ident t))

-- The text does not begin with a quote.
abbrev pub NoQuote : Text → Type 0
NoQuote [] = Unit
NoQuote (c ∷ s) = (c == b'"') ≡ false

read_quoted-end : (r : Text) → NoQuote r → read_quoted true r ≡ some ([], r)
unfolding read_quoted
read_quoted-end [] h = refl
read_quoted-end (c ∷ r) h = rw (h, read_quoted) refl

read_last : (r : Text) → read_quoted false (double_quotes [] ++ b'"' ∷ r) ≡ read_quoted true r
unfolding read_quoted double_quotes
read_last r = refl

read_other :
    (c : ℕ) (s : Text)
    → (c == b'"') ≡ false
    → read_quoted false (c ∷ s) ≡ with_byte c (read_quoted false s)
unfolding read_quoted
read_other c s e = rw (e, read_quoted) refl

read_second :
    (c : ℕ) (s : Text)
    → (c == b'"') ≡ true
    → read_quoted true (c ∷ s) ≡ with_byte c (read_quoted false s)
unfolding read_quoted
read_second c s e = rw (e, read_quoted) refl

read_pair :
    (c : ℕ) (s : Text)
    → (c == b'"') ≡ true
    → read_quoted false (c ∷ c ∷ s) ≡ with_byte c (read_quoted false s)
unfolding read_quoted
read_pair c s e = rw (e, read_quoted) (read_second c s e)

double_quotes-cons :
    (c : ℕ) (s : Text)
    → double_quotes (c ∷ s) ≡ (if c == b'"' then c ∷ c ∷ double_quotes s else c ∷ double_quotes s)
unfolding double_quotes
double_quotes-cons c s = refl

read_quoted-double_quotes :
    (n r : Text) → NoQuote r → read_quoted false (double_quotes n ++ b'"' ∷ r) ≡ some (n, r)
read_quoted-double_quotes [] r h = read_last r ∙ read_quoted-end r h
read_quoted-double_quotes (c ∷ n) r h = elim (Bool-cases (c == b'"')) [
  | inl e ↦
      rw (double_quotes-cons c n, e)
        (read_pair c (double_quotes n ++ b'"' ∷ r) e
          ∙ ap (with_byte c) (read_quoted-double_quotes n r h))
  | inr e ↦
      rw (double_quotes-cons c n, e)
        (read_other c (double_quotes n ++ b'"' ∷ r) e
          ∙ ap (with_byte c) (read_quoted-double_quotes n r h))
]

read_ident-sql_ident : (n r : Text) → NoQuote r → read_ident (sql_ident n ++ r) ≡ some (n, r)
unfolding sql_ident
read_ident-sql_ident n r h =
    ap (read_quoted false) (append_assoc (double_quotes n) (b'"' ∷ []) r)
    ∙ read_quoted-double_quotes n r h

-- Whatever bytes the names of a catalog, a schema and a table have, SQL reads the three of them in the
-- qualified name, and ends where the qualified name ends, if no quote follows it.
pub qualified_name-read :
    (catalog schema name r : Text)
    → NoQuote r
    → read_name (qualified_name catalog schema name ++ r) ≡ some (catalog, schema, name, r)
unfolding qualified_name read_name
qualified_name-read catalog schema name r h =
    let last = sql_ident schema ++ b'.' ∷ sql_ident name in
    ap (λ t. read_name t) (append_assoc (sql_ident catalog) (b'.' ∷ last) r)
    ∙ ap (λ o. with_catalog (behind_dot o)) (read_ident-sql_ident catalog (b'.' ∷ (last ++ r)) refl)
    ∙ ap (λ t. with_schema catalog (behind_dot (read_ident t)))
        (append_assoc (sql_ident schema) (b'.' ∷ sql_ident name) r)
    ∙ ap (λ o. with_schema catalog (behind_dot o))
        (read_ident-sql_ident schema (b'.' ∷ (sql_ident name ++ r)) refl)
    ∙ ap (named catalog schema) (read_ident-sql_ident name r h)
