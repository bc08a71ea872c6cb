-- ===== src/Plan/Markers/RoundTrip.antt =====
-- Ranges that are printed and read again (prestoapi/plan_node/details_utils.go).
use mathlib.Core.List.{List, reverse, reverse-append, reverse-reverse}
use pbench.Prelude.{
  ◌≡◌, ◌≢◌, refl, sym, ap, false, some, List, [], ◌∷◌, ◌++◌, append-nil, Text, codes, text_eq, All,
  All-append,
}
use pbench.Plan.Markers.{
  ℕ, Bound, below, exactly, above, is_quote, trim_left, unquoted, Marker, capture_value, capture,
  quoted, low_text, high_text, range_text,
}

abbrev pub HasNoQuotes : Text → Type 0
HasNoQuotes v = All (λ c. is_quote c ≡ false) v

trim_bare : (c : ℕ) (s : Text) → is_quote c ≡ false → trim_left (c ∷ s) ≡ c ∷ s
unfolding trim_left
trim_bare c s h = rw h refl

HasNoQuotes-reverse : (v : Text) → HasNoQuotes v → HasNoQuotes (reverse v)
HasNoQuotes-reverse [] h = tt
HasNoQuotes-reverse (c ∷ v) (h, hs) =
    rw (reverse-append (c ∷ []) v)
      (All-append (λ c. is_quote c ≡ false) (reverse v) (c ∷ []) (HasNoQuotes-reverse v hs) (h, tt))

trim_bare_all : (v : Text) → HasNoQuotes v → trim_left v ≡ v
trim_bare_all [] h = unfold trim_left in refl
trim_bare_all (c ∷ v) (h, hs) = trim_bare c v h

trim_quote : (s : Text) → trim_left (b'"' ∷ s) ≡ trim_left s
unfolding trim_left is_quote
trim_quote s = refl

unquoted-quoted : (v : Text) → HasNoQuotes v → unquoted (quoted v) ≡ v
unfolding unquoted
unquoted-quoted [] h = unfold trim_left is_quote in refl
unquoted-quoted (c ∷ v) h =
    rw
      (
        trim_quote ((c ∷ v) ++ b'"' ∷ []),
        trim_bare c (v ++ b'"' ∷ []) h.0,
        reverse-append (c ∷ v) (b'"' ∷ []),
        trim_quote (reverse (c ∷ v)),
        trim_bare_all (reverse (c ∷ v)) (HasNoQuotes-reverse (c ∷ v) h),
      )
      (reverse-reverse (c ∷ v))

abbrev marker : Bound → Text → Marker
marker b v = record { bound = b; value = v }

-- The two tokens of a low marker, and those of a high marker.
abbrev low_tokens_of : Bound → Text → List Text
low_tokens_of b [] = codes "(" ∷ codes "<min>" ∷ []
low_tokens_of exactly (c ∷ s) = codes "[" ∷ quoted (c ∷ s) ∷ []
low_tokens_of below (c ∷ s) = codes "(" ∷ quoted (c ∷ s) ∷ []
low_tokens_of above (c ∷ s) = codes "(" ∷ quoted (c ∷ s) ∷ []

abbrev high_tokens_of : Bound → Text → List Text
high_tokens_of b [] = codes "<max>" ∷ codes ")" ∷ []
high_tokens_of exactly (c ∷ s) = quoted (c ∷ s) ∷ codes "]" ∷ []
high_tokens_of below (c ∷ s) = quoted (c ∷ s) ∷ codes ")" ∷ []
high_tokens_of above (c ∷ s) = quoted (c ∷ s) ∷ codes ")" ∷ []

abbrev pub low_tokens : Marker → List Text
low_tokens m = low_tokens_of m.bound m.value

abbrev pub high_tokens : Marker → List Text
high_tokens m = high_tokens_of m.bound m.value

abbrev pub together : List Text → Text
together [] = []
together (t ∷ ts) = t ++ together ts

-- A low marker is not bounded from above, a high one not from below; one without a value is open.
abbrev pub IsLow : Marker → Type 0
IsLow m = HasNoQuotes m.value × (m.bound ≢ below) × (m.value ≡ [] → m.bound ≡ above)

abbrev pub IsHigh : Marker → Type 0
IsHigh m = HasNoQuotes m.value × (m.bound ≢ above) × (m.value ≡ [] → m.bound ≡ below)

capture_low :
    (b : Bound) (v : Text)
    → IsLow (marker b v)
    → capture (low_tokens (marker b v)) ≡ some (marker b v)
unfolding capture capture_value pbench.Prelude.lookup text_eq
capture_low below v (h, n, o) = absurd (n refl)
capture_low exactly [] (h, n, o) = cc (o refl)
capture_low above [] (h, n, o) = refl
capture_low exactly (c ∷ s) (h, n, o) =
    ap (λ u. some (marker exactly u)) (unquoted-quoted (c ∷ s) h)
capture_low above (c ∷ s) (h, n, o) = ap (λ u. some (marker above u)) (unquoted-quoted (c ∷ s) h)

capture_high :
    (b : Bound) (v : Text)
    → IsHigh (marker b v)
    → capture (high_tokens (marker b v)) ≡ some (marker b v)
unfolding capture capture_value pbench.Prelude.lookup text_eq
capture_high above v (h, n, o) = absurd (n refl)
capture_high exactly [] (h, n, o) = cc (o refl)
capture_high below [] (h, n, o) = refl
capture_high exactly (c ∷ s) (h, n, o) =
    ap (λ u. some (marker exactly u)) (unquoted-quoted (c ∷ s) h)
capture_high below (c ∷ s) (h, n, o) = ap (λ u. some (marker below u)) (unquoted-quoted (c ∷ s) h)

low_printed :
    (b : Bound) (v : Text)
    → IsLow (marker b v)
    → low_text (marker b v) ≡ together (low_tokens (marker b v))
unfolding low_text text_eq
low_printed below v (h, n, o) = absurd (n refl)
low_printed exactly [] h = refl
low_printed exactly (c ∷ s) h = ap (λ t. b'[' ∷ t) (sym (append-nil (quoted (c ∷ s))))
low_printed above [] h = refl
low_printed above (c ∷ s) h = ap (λ t. b'(' ∷ t) (sym (append-nil (quoted (c ∷ s))))

high_printed :
    (b : Bound) (v : Text)
    → IsHigh (marker b v)
    → high_text (some (marker b v)) ≡ codes ", " ++ together (high_tokens (marker b v))
unfolding high_text text_eq
high_printed above v (h, n, o) = absurd (n refl)
high_printed exactly [] h = refl
high_printed exactly (c ∷ s) h = refl
high_printed below [] h = refl
high_printed below (c ∷ s) h = refl

-- A range is printed as the two tokens of its low marker, a comma and the two tokens of its high marker,
-- and from these tokens `Capture` reads the same markers. The values have no quotation marks, and a
-- marker without a value is open.
pub range_text-capture :
    (low high : Marker)
    → IsLow low
    → IsHigh high
    → (range_text (record { low_value = some low; high_value = some high })
        ≡ together (low_tokens low) ++ (codes ", " ++ together (high_tokens high)))
      × (capture (low_tokens low) ≡ some low)
      × (capture (high_tokens high) ≡ some high)
unfolding range_text
range_text-capture low high l h = (
  (λ i. low_printed low.bound low.value l i ++ high_printed high.bound high.value h i),
  capture_low low.bound low.value l,
  capture_high high.bound high.value h,
)
