-- ===== src/Replay/Frames.antt =====
-- `NewQueryFrame` and `ParseSessionParams` of cmd/replay/frame.go. The layout of a time is package
-- time's, and its parser a parameter.
pub mod Params
use pbench.Prelude.{
  text_eq, ℕ, zero, suc, ◌≡◌, refl, Bool, true, false, not, ◌&&◌, ◌||◌, Option, none, some, List,
  [], ◌∷◌, ◌++◌, Text, Map, insert, codes, ◌==◌, leb, if◌then◌else◌, length,
}
use pbench.Prelude.Int.{ℤ}
use pbench.Prelude.Atoi.{atoi}

pub record QueryFrame : Type 0 where
  pub query_id : Text
  pub create_time : ℕ
  pub wall_time_millis : ℤ
  pub output_rows : ℤ
  pub written_output_rows : ℤ
  pub catalog : Text
  pub schema : Text
  pub session_properties : Text
  pub query : Text

-- Does a text begin with the rest of "<<>>", behind its first byte?
abbrev marks_line : ℕ → Text → Bool
marks_line a (b ∷ c ∷ d ∷ s) = a == b'<' && (b == b'<' && (c == b'>' && d == b'>'))
marks_line a (b ∷ c ∷ []) = false
marks_line a (b ∷ []) = false
marks_line a [] = false

-- `strings.ReplaceAll(query, "<<>>", "\n")`, with the bytes of a mark that are still to be skipped.
pub replace_marks : ℕ → Text → Text
replace_marks skipped [] = []
replace_marks (suc n) (c ∷ s) = replace_marks n s
replace_marks zero (c ∷ s) =
    let rest = replace_marks 0 s in
    let behind = replace_marks 3 s in if marks_line c s then b'\n' ∷ behind else c ∷ rest

pub data FrameError : Type 0 where
  too_few_fields : FrameError
  bad_time : Text → FrameError
  bad_number : Text → FrameError

pub data FrameResult : Type 0 where
  frame : QueryFrame → FrameResult
  bad_frame : FrameError → FrameResult

pub with_number : Text → (ℤ → FrameResult) → FrameResult
with_number t k = elim (atoi t) [ none ↦ bad_frame (bad_number t) | some n ↦ k n ]

-- `NewQueryFrame`
unfoldable pub new_query_frame : (Text → Option ℕ) → List Text → FrameResult
unfolding with_number replace_marks
new_query_frame parse_time
      (id ∷ time ∷ wall ∷ rows ∷ written ∷ catalog ∷ schema ∷ props ∷ query ∷ more) =
    elim (parse_time time) [
      | none ↦ bad_frame (bad_time time)
      | some t ↦ with_number wall (λ w. with_number rows (λ r. with_number written (λ o.
          frame (record {
            query_id = id;
            create_time = t;
            wall_time_millis = w;
            output_rows = r;
            written_output_rows = o;
            catalog = catalog;
            schema = schema;
            session_properties = props;
            query = replace_marks 0 query;
          }))))
    ]
new_query_frame parse_time fields = bad_frame too_few_fields

-- Is the separator ", " at this byte?
unfoldable pub separates : ℕ → Text → Bool
separates c [] = false
separates c (d ∷ s) = c == b',' && d == b' '

pub add_byte : ℕ → List Text → List Text
add_byte c [] = (c ∷ []) ∷ []
add_byte c (t ∷ ts) = (c ∷ t) ∷ ts

-- `strings.Split(s, ", ")`; the space of a separator is still to be skipped where the flag is set.
pub split_props : Bool → Text → List Text
unfolding separates add_byte
split_props skip [] = [] ∷ []
split_props true (c ∷ s) = split_props false s
split_props false (c ∷ s) =
    let rest = split_props (separates c s) s in if separates c s then [] ∷ rest else add_byte c rest

-- `strings.SplitN(prop, "=", 2)`, where it has two parts.
pub key_and_value : Text → Option (Text × Text)
key_and_value [] = none
key_and_value (c ∷ s) =
    let rest = key_and_value s in
    if c == b'=' then some ([], s) else elim rest [ none ↦ none | some (k, v) ↦ some (c ∷ k, v) ]

-- The loop over the properties; one without "=" is passed over.
pub insert_props : List Text → Map Text → Map Text
unfolding key_and_value
insert_props [] m = m
insert_props (p ∷ props) m = elim (key_and_value p) [
  | none ↦ insert_props props m
  | some (k, v) ↦ insert_props props (insert k v m)
]

-- A text that is not empty, without its last byte, and that byte.
pub unsnoc : ℕ → Text → Text × ℕ
unsnoc c [] = ([], c)
unsnoc c (d ∷ s) = let (t, l) = unsnoc d s in (c ∷ t, l)

in_braces : Text × ℕ → Map Text
unfolding insert_props split_props
in_braces (inner, l) = if l == b'}' then insert_props (split_props false inner) [] else []

-- `ParseSessionParams`
pub parse_session_params : Text → Map Text
unfolding unsnoc in_braces
parse_session_params [] = []
parse_session_params (c ∷ []) = []
parse_session_params (c ∷ d ∷ s) =
    let inner = in_braces (unsnoc d s) in
    if leb (length (c ∷ d ∷ s)) 2 then [] else if c == b'{' then inner else []

params_run :
    parse_session_params (codes "{a=1, b=x=y, c}")
    ≡ (codes "a", codes "1") ∷ (codes "b", codes "x=y") ∷ []
unfolding parse_session_params insert text_eq
params_run = refl
