-- ===== src/Plan/Markers.antt =====
-- The ranges of prestoapi/plan_node/details_utils.go, with `Marker` and `Range` of details.go.
pub mod RoundTrip
use mathlib.Core.List.{reverse}
use pbench.Prelude.{
  ℕ, ◌≡◌, refl, Bool, true, false, ◌||◌, Option, none, some, List, [], ◌∷◌, ◌++◌, Text, Map, lookup,
  codes, text_eq, ◌==◌, if◌then◌else◌,
}

pub data Bound : Type 0 where
  below : Bound
  exactly : Bound
  above : Bound

abbrev pub bound_map : Map Bound
bound_map =
    (codes "[", exactly)
    ∷ (codes "]", exactly)
    ∷ (codes "(", above)
    ∷ (codes ")", below)
    ∷ (codes "<min>", above)
    ∷ (codes "<max>", below)
    ∷ []

unfoldable pub is_quote : ℕ → Bool
is_quote c = c == b'"' || c == b'\''

pub trim_left : Text → Text
unfolding is_quote
trim_left [] = []
trim_left (c ∷ s) = let rest = trim_left s in if is_quote c then rest else c ∷ s

-- `UnquotedString.Capture`, which trims the quotation marks.
unfoldable pub unquoted : Text → Text
unfolding trim_left
unquoted s = reverse (trim_left (reverse (trim_left s)))

pub record Marker : Type 0 where
  pub bound : Bound
  pub value : Text

-- One value of the loop of `Marker.Capture`.
pub capture_value : Text → Marker → Marker
unfolding unquoted
capture_value v m = elim (lookup v bound_map) [
  | some b ↦ record m { bound = b }
  | none ↦ record m { value = unquoted v }
]

-- `Marker.Capture` of a new marker; nothing stands for the error.
pub capture : List Text → Option Marker
unfolding capture_value
capture [] = none
capture (v ∷ []) = none
capture (v ∷ w ∷ []) =
    some (capture_value w (capture_value v (record { bound = below; value = [] })))
capture (v ∷ w ∷ x ∷ rest) = none

-- `Range`, without the text of a null.
pub record Range : Type 0 where
  pub low_value : Option Marker
  pub high_value : Option Marker

abbrev is_exactly : Bound → Bool
is_exactly below = false
is_exactly exactly = true
is_exactly above = false

abbrev pub quoted : Text → Text
quoted v = b'"' ∷ (v ++ b'"' ∷ [])

pub low_text : Marker → Text
low_text m =
    if text_eq m.value []
    then codes "(<min>"
    else (if is_exactly m.bound then codes "[" else codes "(") ++ quoted m.value

pub high_text : Option Marker → Text
high_text none = codes "]"
high_text (some m) =
    if text_eq m.value []
    then codes ", <max>)"
    else codes ", " ++ (quoted m.value ++ (if is_exactly m.bound then codes "]" else codes ")"))

-- `Range.String`
pub range_text : Range → Text
unfolding low_text high_text
range_text r = elim r.low_value [
  | none ↦ codes "<error>"
  | some m ↦ low_text m ++ high_text r.high_value
]
