-- ===== src/Plan/Trace/Kept.antt =====
-- What `traceValue` of prestoapi/plan_node/plan_node.go leaves alone in the objects that it reaches.
use mathlib.Core.Path.{subst}
use pbench.Prelude.{
  ℕ, zero, suc, ◌≡◌, refl, sym, ap, ◌∙◌, Bool, true, false, Option, none, some, List, [], ◌∷◌, ◌++◌,
  Text, Map, lookup, ◌==◌, map, Option-cases, Bool-cases, inl, inr, ==_iff,
}
use pbench.Plan.Values.{HiveTableHandle}
use pbench.Plan.Trace.{
  Ptr, Cell, column_cell, call_cell, ident_cell, cast_cell, math_cell, other_cell, Heap, write,
  Traced, traced, trace_params, trace_cell, trace_value,
}

-- An object without its pointers and its table.
abbrev pub label : Cell → Cell
label (column_cell n t) = column_cell n none
label (call_cell f ps options) = call_cell f (map (λ _. 0) ps) options
label (ident_cell x) = ident_cell x
label (cast_cell p d) = cast_cell 0 d
label (math_cell p op q) = math_cell 0 op 0
label (other_cell v) = other_cell v

abbrev pub table_of : Cell → Option HiveTableHandle
table_of (column_cell n t) = t
table_of (call_cell f ps options) = none
table_of (ident_cell x) = none
table_of (cast_cell p d) = none
table_of (math_cell p op q) = none
table_of (other_cell v) = none

-- The object is the same but for its pointers, and for a table that was not known.
abbrev pub IsKept : Cell → Cell → Type 0
IsKept c c' =
    (label c' ≡ label c) × ((t : HiveTableHandle) → table_of c ≡ some t → table_of c' ≡ some t)

abbrev pub Keeps : Heap → Heap → Type 0
Keeps h h' = (p : Ptr) → IsKept (h.cell p) (h'.cell p)

abbrev is_column : Cell → Bool
is_column (column_cell n t) = true
is_column c = false

of_label : (c c' : Cell) → label c' ≡ label c → is_column c' ≡ false → IsKept c c'
of_label (column_cell n t) (column_cell k u) e b = cc
of_label (column_cell n t) (call_cell f ps o) e b = cc
of_label (column_cell n t) (ident_cell x) e b = cc
of_label (column_cell n t) (cast_cell p d) e b = cc
of_label (column_cell n t) (math_cell p op q) e b = cc
of_label (column_cell n t) (other_cell v) e b = cc
of_label (call_cell f ps o) c' e b = (e, λ t x. cc)
of_label (ident_cell x) c' e b = (e, λ t x. cc)
of_label (cast_cell p d) c' e b = (e, λ t x. cc)
of_label (math_cell p op q) c' e b = (e, λ t x. cc)
of_label (other_cell v) c' e b = (e, λ t x. cc)

Keeps-refl : (h : Heap) → Keeps h h
Keeps-refl h = λ p. (refl, λ t e. e)

Keeps-trans : (h h' h'' : Heap) → Keeps h h' → Keeps h' h'' → Keeps h h''
Keeps-trans h h' h'' k k' = λ p. ((k' p).0 ∙ (k p).0, λ t e. (k' p).1 t ((k p).1 t e))

Keeps-write : (a : Ptr) (c : Cell) (h : Heap) → IsKept (h.cell a) c → Keeps h (write a c h)
unfolding write
Keeps-write a c h k = λ p. elim (Bool-cases (p == a)) [
  | inl e ↦ rw (e) (subst (λ q. IsKept (h.cell q) c) (sym ((==_iff p a).0 e)) k)
  | inr e ↦ rw e (Keeps-refl h p)
]

-- What a trace returns, if it returns.
abbrev KeptBy : Heap → Traced → Type 0
KeptBy h none = Unit
KeptBy h (some (b, h')) = Keeps h h'

traced-KeptBy :
    (h : Heap) (r : Traced) (k : Ptr → Heap → Traced)
    → KeptBy h r
    → ((b : Ptr) (h' : Heap) → Keeps h h' → KeptBy h (k b h'))
    → KeptBy h (traced r k)
traced-KeptBy h none k x f = tt
traced-KeptBy h (some (b, h')) k x f = f b h' x

later-KeptBy : (h h' : Heap) (r : Traced) → Keeps h h' → KeptBy h' r → KeptBy h r
later-KeptBy h h' none k x = tt
later-KeptBy h h' (some (b, h'')) k x = Keeps-trans h h' h'' k x

-- A write at an object that had the same label when the trace began.
write-later :
    (a : Ptr) (c : Cell) (h h' : Heap)
    → label c ≡ label (h.cell a)
    → is_column c ≡ false
    → Keeps h h'
    → Keeps h (write a c h')
write-later a c h h' e b k =
    Keeps-trans h h' (write a c h') k
      (Keeps-write a c h' (of_label (h'.cell a) c (e ∙ sym (k a).0) b))

blanks :
    (before : List Ptr) (p q : Ptr) (after : List Ptr)
    → map (λ (_ : Ptr). zero) ((before ++ p ∷ []) ++ after)
      ≡ map (λ (_ : Ptr). zero) (before ++ q ∷ after)
blanks [] p q after = refl
blanks (b ∷ before) p q after = ap (λ ps. zero ∷ ps) (blanks before p q after)

module _ (rec : Ptr → Heap → Traced) (ih : (p : Ptr) (h : Heap) → KeptBy h (rec p h)) where
  params-KeptBy :
      (a : Ptr) (f : Text) (options : List Text) (before params : List Ptr) (g h : Heap)
      → label (call_cell f (before ++ params) options) ≡ label (g.cell a)
      → Keeps g h
      → KeptBy g (trace_params rec a f options before params h)
  unfolding trace_params
  params-KeptBy a f options before [] g h e k = k
  params-KeptBy a f options before (p ∷ params) g h e k =
      traced-KeptBy g (rec p h) _ (later-KeptBy g h _ k (ih p h)) λ p' h' k'.
        let e' = ap (λ ps. call_cell f ps options) (blanks before p' p params) ∙ e in
        params-KeptBy a f options (before ++ p' ∷ []) params g _ e'
          (write-later a _ g h' e' refl k')

  cell-KeptBy :
      (m : Map Ptr) (t : Option HiveTableHandle) (a : Ptr) (c : Cell) (h : Heap)
      → h.cell a ≡ c
      → KeptBy h (trace_cell rec m t a c h)
  unfolding trace_cell
  cell-KeptBy m t a (column_cell n none) h e = Keeps-write a _ h (rw e (refl, λ u x. cc))
  cell-KeptBy m t a (column_cell n (some u)) h e = Keeps-refl h
  cell-KeptBy m t a (cast_cell v d) h e =
      traced-KeptBy h (rec v h) _ (ih v h) λ v' h' k. write-later a _ h h' (rw e refl) refl k
  cell-KeptBy m t a (ident_cell x) h e = elim (Option-cases (lookup x m)) [
    | inl o ↦ rw (o, trace_cell) (Keeps-refl h)
    | inr (p, o) ↦ rw (o, trace_cell) (ih p h)
  ]
  cell-KeptBy m t a (call_cell f params options) h e =
      params-KeptBy a f options [] params h h (rw e refl) (Keeps-refl h)
  cell-KeptBy m t a (math_cell l op r) h e = traced-KeptBy h (rec l h) _ (ih l h) λ l' h' k.
      let k' = write-later a (math_cell l' op r) h h' (rw e refl) refl k in
      traced-KeptBy h (rec r (write a (math_cell l' op r) h')) _
        (later-KeptBy h (write a (math_cell l' op r) h') _ k' (ih r _))
        λ r' h'' k''. write-later a _ h h'' (rw e refl) refl k''
  cell-KeptBy m t a (other_cell v) h e = Keeps-refl h

trace_value-KeptBy :
    (depth : ℕ) (m : Map Ptr) (t : Option HiveTableHandle) (a : Ptr) (h : Heap)
    → KeptBy h (trace_value depth m t a h)
unfolding trace_value
trace_value-KeptBy zero m t a h = tt
trace_value-KeptBy (suc depth) m t a h =
    cell-KeptBy (trace_value depth m t) (trace_value-KeptBy depth m t) m t a (h.cell a) h refl

-- Whatever map it is given, `traceValue` changes no object but for the values inside it, which are
-- replaced one for one, and for the table of a column whose table was not known; a table that is known
-- stays.
pub trace_value-Keeps :
    (depth : ℕ) (m : Map Ptr) (t : Option HiveTableHandle) (a b : Ptr) (h h' : Heap)
    → trace_value depth m t a h ≡ some (b, h')
    → Keeps h h'
trace_value-Keeps depth m t a b h h' e = subst (KeptBy h) e (trace_value-KeptBy depth m t a h)
