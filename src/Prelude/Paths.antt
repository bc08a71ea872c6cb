-- ===== src/Prelude/Paths.antt =====
-- What the program takes from package path/filepath, for paths with slashes.
use Prim.Native.Nat.{ℕ}
use mathlib.Core.Path.{◌≡◌, refl}
use mathlib.Core.Bool.{Bool, true, false}
use mathlib.Core.List.{List, [], ◌∷◌, ◌++◌, reverse}
use mathlib.Core.Option.{Option, none, some}
use pbench.Prelude.Tests.{◌==◌, if◌then◌else◌}
use pbench.Prelude.Texts.{Text, codes, text_eq}

add_byte : ℕ → List Text → List Text
add_byte c [] = (c ∷ []) ∷ []
add_byte c (s ∷ segments) = (c ∷ s) ∷ segments

-- The texts between the slashes.
segments_of : Text → List Text
unfolding add_byte
segments_of [] = [] ∷ []
segments_of (c ∷ s) = let rest = segments_of s in if c == b'/' then [] ∷ rest else add_byte c rest

-- Leaves the segment on top, which `..` undoes. The stack has the last segment first.
go_up : Bool → List Text → List Text
go_up true [] = []
go_up false [] = codes ".." ∷ []
go_up rooted (s ∷ stack) = if text_eq s (codes "..") then codes ".." ∷ s ∷ stack else stack

-- The stack behind a segment.
with_segment : Bool → Text → List Text → List Text
unfolding go_up
with_segment rooted s stack =
    if text_eq s []
    then stack
    else if text_eq s (codes ".")
    then stack
    else if text_eq s (codes "..")
    then go_up rooted stack
    else s ∷ stack

clean_segments : Bool → List Text → List Text → List Text
unfolding with_segment
clean_segments rooted stack [] = stack
clean_segments rooted stack (s ∷ segments) =
    clean_segments rooted (with_segment rooted s stack) segments

joined : List Text → Text
joined [] = []
joined (s ∷ []) = s
joined (s ∷ t ∷ segments) = s ++ b'/' ∷ joined (t ∷ segments)

or_dot : Text → Text
or_dot [] = codes "."
or_dot (c ∷ s) = c ∷ s

-- filepath.IsAbs
pub is_abs : Text → Bool
is_abs [] = false
is_abs (c ∷ s) = c == b'/'

-- filepath.Clean
pub clean : Text → Text
unfolding segments_of clean_segments joined or_dot is_abs
clean path =
    let segments = joined (reverse (clean_segments (is_abs path) [] (segments_of path))) in
    if is_abs path then b'/' ∷ segments else or_dot segments

-- filepath.Join of two elements, of which an empty one is ignored.
unfoldable pub join : Text → Text → Text
unfolding clean
join [] [] = []
join [] (c ∷ s) = clean (c ∷ s)
join (d ∷ t) [] = clean (d ∷ t)
join (d ∷ t) (c ∷ s) = clean (d ∷ t ++ b'/' ∷ c ∷ s)

up_to : ℕ → Text → Text
up_to c [] = if c == b'/' then c ∷ [] else []
up_to c (d ∷ s) = c ∷ d ∷ s

-- path[:i+1], where i is the last slash.
up_to_slash : Text → Text
unfolding up_to
up_to_slash [] = []
up_to_slash (c ∷ s) = up_to c (up_to_slash s)

-- filepath.Dir
pub dir : Text → Text
unfolding up_to_slash clean
dir path = clean (up_to_slash path)

last_segment : Text → List Text → Text
last_segment t [] = t
last_segment t ([] ∷ segments) = last_segment t segments
last_segment t ((c ∷ s) ∷ segments) = last_segment (c ∷ s) segments

base_or : Bool → Text → Text
base_or true [] = codes "/"
base_or false [] = codes "."
base_or rooted (c ∷ s) = c ∷ s

-- filepath.Base
unfoldable pub base : Text → Text
unfolding last_segment base_or segments_of is_abs
base path = base_or (is_abs path) (last_segment [] (segments_of path))

-- The name without what stands from its last dot on, if it has one.
before_dot : Text → Option Text
before_dot [] = none
before_dot (c ∷ s) = elim (before_dot s) as (λ o. Option Text) [
  | some t ↦ some (c ∷ t)
  | none ↦ if c == b'.' then some [] else none
]

-- base[:len(base)-len(filepath.Ext(base))]
unfoldable pub without_ext : Text → Text
unfolding before_dot
without_ext name = elim (before_dot name) [ none ↦ name | some t ↦ t ]

join_runs : join (codes "/a/b") (codes "../c//d.json") ≡ codes "/a/c/d.json"
unfolding join text_eq
join_runs = refl

base_runs : without_ext (base (codes "/a/c/d.x.json")) ≡ codes "d.x"
unfolding without_ext base
base_runs = refl
