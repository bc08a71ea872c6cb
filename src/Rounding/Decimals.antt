-- ===== src/Rounding/Decimals.antt =====
-- The regular expression of cmd/round/main.go, `"?(\d+\.\d{p})\d+"?` for a precision `p`, and what is
-- written in the place of a column that it matches.
use pbench.Prelude.{
  ==_iff, ◌==◌, ℕ, ◌<◌, ◌≡◌, refl, sym, ◌∙◌, ap, Bool, true, ◌&&◌, Option, none, some, [], ◌∷◌,
  ◌++◌, Text, codes, All, ltb, leb, ltb→lt, if◌then◌else◌, subst, length, take, Bool-cases,
  Option-cases, inl, inr,
}

pub is_digit : ℕ → Bool
is_digit c = leb b'0' c && leb c b'9'

-- `\d*` at the beginning, and what stands behind it.
pub digits : Text → Text × Text
unfolding is_digit
digits [] = ([], [])
digits (c ∷ s) = let more = digits s in if is_digit c then (c ∷ more.0, more.1) else ([], c ∷ s)

-- The number with the fraction that follows its point, if that is long enough.
pub with_fraction : ℕ → Text → Text × Text → Option Text
with_fraction p whole (fraction, rest) =
    if ltb p (length fraction) then some (whole ++ b'.' ∷ take p fraction) else none

pub after_whole : ℕ → Text × Text → Option Text
unfolding with_fraction digits
after_whole p ([], rest) = none
after_whole p (c ∷ whole, []) = none
after_whole p (c ∷ whole, d ∷ rest) =
    if d == b'.' then with_fraction p (c ∷ whole) (digits rest) else none

abbrev first_found : Option Text → Option Text → Option Text
first_found none rest = rest
first_found (some t) rest = some t

-- `decimalRegExp.FindStringSubmatch(col)[1]`: the search goes from left to right.
unfoldable pub find_decimal : ℕ → Text → Option Text
unfolding after_whole digits
find_decimal p [] = none
find_decimal p (c ∷ s) =
    let rest = find_decimal p s in first_found (after_whole p (digits (c ∷ s))) rest

pub data Format : Type 0 where
  csv : Format
  json : Format

pub formatted : Format → Text → Text
formatted csv t = b'"' ∷ (t ++ b'"' ∷ [])
formatted json t = t

-- A column, rewritten if it matches.
unfoldable pub rewritten : Format → ℕ → Text → Text
unfolding formatted find_decimal
rewritten f p col = elim (find_decimal p col) [ none ↦ col | some t ↦ formatted f t ]

truncated : find_decimal 2 (codes "\"31.41999\"") ≡ some (codes "31.41")
unfolding find_decimal
truncated = refl

-- The digits, a point, more digits than the precision: a number that stands in a text.
pub record IsNumberIn (p : ℕ) (text result : Text) : Type 0 where
  pub before : Text
  pub whole : Text
  pub fraction : Text
  pub after : Text
  pub in_text : text ≡ before ++ (whole ++ b'.' ∷ (fraction ++ after))
  pub whole_digits : All (λ c. is_digit c ≡ true) whole
  pub fraction_digits : All (λ c. is_digit c ≡ true) fraction
  pub long : p < length fraction
  pub cut_off : result ≡ whole ++ b'.' ∷ take p fraction

digits_lem :
    (s : Text) → (s ≡ (digits s).0 ++ (digits s).1) × All (λ c. is_digit c ≡ true) (digits s).0
unfolding digits
digits_lem [] = (refl, tt)
digits_lem (c ∷ s) = elim (Bool-cases (is_digit c)) [
  | inl e ↦ rw e (ap (λ t. c ∷ t) (digits_lem s).0, (e, (digits_lem s).1))
  | inr e ↦ rw e (refl, tt)
]

some_inj : {a b : Text} → some a ≡ some b → a ≡ b
some_inj e = cc

none-some : {a : Text} → none ≡ some a → ⊥
none-some e = cc

fraction-IsNumberIn :
    (p : ℕ) (whole : Text) (d : Text × Text) (rest t : Text)
    → rest ≡ d.0 ++ d.1
    → All (λ c. is_digit c ≡ true) d.0
    → All (λ c. is_digit c ≡ true) whole
    → with_fraction p whole d ≡ some t
    → IsNumberIn p (whole ++ b'.' ∷ rest) t
unfolding with_fraction
fraction-IsNumberIn p whole (fraction, after) rest t e a w h =
    elim (Bool-cases (ltb p (length fraction))) [
      | inl l ↦ record {
        before = [];
        whole = whole;
        fraction = fraction;
        after = after;
        in_text = rw e refl;
        whole_digits = w;
        fraction_digits = a;
        long = ltb→lt p (length fraction) l;
        cut_off = sym (some_inj (rw l at h));
      }
      | inr l ↦ absurd (none-some (rw l at h))
    ]
  where
    some_inj : {a b : Text} → some a ≡ some b → a ≡ b
    some_inj e = cc

    none-some : {a : Text} → none ≡ some a → ⊥
    none-some e = cc

whole-IsNumberIn :
    (p : ℕ) (d : Text × Text) (text t : Text)
    → text ≡ d.0 ++ d.1
    → All (λ c. is_digit c ≡ true) d.0
    → after_whole p d ≡ some t
    → IsNumberIn p text t
unfolding after_whole
whole-IsNumberIn p ([], rest) text t e a h = absurd (none-some h)
whole-IsNumberIn p (c ∷ whole, []) text t e a h = absurd (none-some h)
whole-IsNumberIn p (c ∷ whole, d ∷ rest) text t e a h = elim (Bool-cases (d == b'.')) [
  | inl q ↦
      subst (λ u. IsNumberIn p u t)
        (sym (e ∙ ap (λ x. (c ∷ whole) ++ x ∷ rest) ((==_iff d b'.').0 q)))
        (fraction-IsNumberIn p (c ∷ whole) (digits rest) rest t (digits_lem rest).0
          (digits_lem rest).1 a (rw q at h))
  | inr q ↦ absurd (none-some (rw q at h))
]

further : {p : ℕ} {s t : Text} (c : ℕ) → IsNumberIn p s t → IsNumberIn p (c ∷ s) t
further c n = record {
  before = c ∷ n.before;
  whole = n.whole;
  fraction = n.fraction;
  after = n.after;
  in_text = ap (λ u. c ∷ u) n.in_text;
  whole_digits = n.whole_digits;
  fraction_digits = n.fraction_digits;
  long = n.long;
  cut_off = n.cut_off;
}

-- What is written for a column is a number that stands in it, anywhere, with more digits behind its
-- point than the precision: its digits behind the precision are cut off, and nothing is rounded.
pub find_decimal-IsNumberIn :
    (p : ℕ) (col t : Text) → find_decimal p col ≡ some t → IsNumberIn p col t
unfolding find_decimal
find_decimal-IsNumberIn p [] t h = absurd (none-some h)
find_decimal-IsNumberIn p (c ∷ s) t h = elim (Option-cases (after_whole p (digits (c ∷ s)))) [
  | inl e ↦ further c (find_decimal-IsNumberIn p s t (rw e at h))
  | inr (u, e) ↦
      whole-IsNumberIn p (digits (c ∷ s)) (c ∷ s) t (digits_lem (c ∷ s)).0 (digits_lem (c ∷ s)).1
        (e ∙ (rw e at h))
]
