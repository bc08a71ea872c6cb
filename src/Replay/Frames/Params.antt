-- ===== src/Replay/Frames/Params.antt =====
-- Session properties that are printed and read again (cmd/replay/frame.go).
use pbench.Prelude.{
  inr, inl, map, Bool-cases, text_eq_self, ℕ, ◌≡◌, refl, sym, ap, ◌∙◌, false, none, some, List, [],
  ◌∷◌, ◌++◌, arith, Text, Map, insert, lookup, UniqueKeys, ◌==◌, All, append_assoc, append-nil,
  text_eq, text_eq_iff,
}
use pbench.Replay.Frames.{
  separates, add_byte, split_props, key_and_value, insert_props, unsnoc, parse_session_params,
}

-- The properties as the log has them: "{k=v, k=v}".
abbrev pub print_prop : Text × Text → Text
print_prop (k, v) = k ++ b'=' ∷ v

abbrev pub print_props : Map Text → Text
print_props [] = []
print_props (p ∷ []) = print_prop p
print_props (p ∷ q ∷ props) = print_prop p ++ b',' ∷ b' ' ∷ print_props (q ∷ props)

abbrev pub print_params : Map Text → Text
print_params props = b'{' ∷ (print_props props ++ b'}' ∷ [])

-- The separator does not stand in a text.
abbrev pub HasNoSeparator : Text → Type 0
HasNoSeparator [] = Unit
HasNoSeparator (c ∷ s) = (separates c s ≡ false) × HasNoSeparator s

abbrev pub HasNoEquals : Text → Type 0
HasNoEquals k = All (λ c. (c == b'=') ≡ false) k

abbrev pub IsPrintable : Map Text → Type 0
IsPrintable [] = Unit
IsPrintable ((k, v) ∷ props) =
    (HasNoEquals k × HasNoSeparator k × HasNoSeparator v) × IsPrintable props

separates-append :
    (c d : ℕ) (s r : Text)
    → (d == b' ') ≡ false
    → separates c s ≡ false
    → separates c (s ++ d ∷ r) ≡ false
unfolding separates
separates-append c d [] r h k = ground arith
separates-append c d (e ∷ s) r h k = k

equals_separates : (s : Text) → separates b'=' s ≡ false
unfolding separates
equals_separates [] = refl
equals_separates (c ∷ s) = refl

HasNoSeparator-equals :
    (k v : Text) → HasNoSeparator k → HasNoSeparator v → HasNoSeparator (k ++ b'=' ∷ v)
HasNoSeparator-equals [] v hk hv = (equals_separates v, hv)
HasNoSeparator-equals (c ∷ k) v (h, hk) hv =
    (separates-append c b'=' k v refl h, HasNoSeparator-equals k v hk hv)

split-last : (t : Text) → HasNoSeparator t → split_props false t ≡ t ∷ []
unfolding split_props
split-last [] h = refl
split-last (c ∷ t) (h, hs) = rw (h, split-last t hs) (unfold add_byte in refl)

split-first :
    (t rest : Text)
    → HasNoSeparator t
    → split_props false (t ++ b',' ∷ b' ' ∷ rest) ≡ t ∷ split_props false rest
unfolding split_props separates
split-first [] rest h = refl
split-first (c ∷ t) rest (h, hs) =
    rw (separates-append c b',' t (b' ' ∷ rest) refl h, split-first t rest hs)
      (unfold add_byte in refl)

key-print : (k v : Text) → HasNoEquals k → key_and_value (k ++ b'=' ∷ v) ≡ some (k, v)
unfolding key_and_value
key-print [] v h = refl
key-print (c ∷ k) v (h, hs) = rw (h, key-print k v hs) refl

insert_prop :
    (p : Text × Text) (texts : List Text) (m : Map Text)
    → HasNoEquals p.0
    → insert_props (print_prop p ∷ texts) m ≡ insert_props texts (insert p.0 p.1 m)
unfolding insert_props
insert_prop (k, v) texts m h = rw (key-print k v h, insert_props) refl

insert-new : (k v : Text) (m : Map Text) → lookup k m ≡ none → insert k v m ≡ m ++ (k, v) ∷ []
unfolding insert lookup
insert-new k v [] h = refl
insert-new k v ((j, w) ∷ m) h = ground (arith, insert-new k v m)

unsnoc-append : (c : ℕ) (s : Text) (l : ℕ) → unsnoc c (s ++ l ∷ []) ≡ (c ∷ s, l)
unfolding unsnoc
unsnoc-append c [] l = refl
unsnoc-append c (d ∷ s) l = rw (unsnoc-append d s l) refl

split-print :
    (p : Text × Text) (props : Map Text)
    → IsPrintable (p ∷ props)
    → split_props false (print_props (p ∷ props)) ≡ map print_prop (p ∷ props)
split-print (k, v) [] ((hk, sk, sv), h) =
    split-last (k ++ b'=' ∷ v) (HasNoSeparator-equals k v sk sv)
split-print (k, v) (q ∷ props) ((hk, sk, sv), h) =
    split-first (k ++ b'=' ∷ v) (print_props (q ∷ props)) (HasNoSeparator-equals k v sk sv)
    ∙ ap (λ ts. (k ++ b'=' ∷ v) ∷ ts) (split-print q props h)

-- No key of the properties is in the map.
abbrev IsNew : Map Text → Map Text → Type 0
IsNew m props = (k v : Text) → lookup k props ≡ some v → lookup k m ≡ none

lookup-snoc :
    (j k v : Text) (m : Map Text)
    → lookup j m ≡ none
    → text_eq k j ≡ false
    → lookup j (m ++ (k, v) ∷ []) ≡ none
unfolding lookup
lookup-snoc j k v [] h e = rw e refl
lookup-snoc j k v ((i, w) ∷ m) h e = ground (arith, lookup-snoc j k v m)

lookup_first : (k v : Text) (m : Map Text) → lookup k ((k, v) ∷ m) ≡ some v
unfolding lookup
lookup_first k v m = rw (text_eq_self k) refl

IsNew-snoc :
    (k v : Text) (m props : Map Text)
    → lookup k props ≡ none
    → IsNew m ((k, v) ∷ props)
    → IsNew (m ++ (k, v) ∷ []) props
unfolding lookup
IsNew-snoc k v m props u h = λ j w e. elim (Bool-cases (text_eq k j)) [
  | inl q ↦ let same : k ≡ j = (text_eq_iff k j).0 q in absurd (none_some w (sym u ∙ (rw same e)))
  | inr q ↦ lookup-snoc j k v m (h j w (rw q e)) q
]
  where
    none_some : (w : Text) → none ≡ some w → ⊥
    none_some w e = cc

insert_props_all :
    (props m : Map Text)
    → IsPrintable props
    → UniqueKeys props
    → IsNew m props
    → insert_props (map print_prop props) m ≡ m ++ props
insert_props_all [] m h u n = unfold insert_props in sym (append-nil m)
insert_props_all ((k, v) ∷ props) m ((hk, _, _), h) (u, us) n =
    insert_prop (k, v) (map print_prop props) m hk
    ∙ ap (insert_props (map print_prop props)) (insert-new k v m (n k v (lookup_first k v props)))
    ∙ insert_props_all props (m ++ (k, v) ∷ []) h us (IsNew-snoc k v m props u n)
    ∙ append_assoc m ((k, v) ∷ []) props

parse_braced :
    (t : Text) (d : ℕ) (s : Text)
    → t ≡ d ∷ s
    → parse_session_params (b'{' ∷ (t ++ b'}' ∷ [])) ≡ insert_props (split_props false t) []
unfolding parse_session_params
parse_braced t d s e = rw (e, unsnoc-append d s b'}') (ground arith)

print_props-cons :
    (p : Text × Text) (props : Map Text) → (d : ℕ) × (s : Text) × (print_props (p ∷ props) ≡ d ∷ s)
print_props-cons ([], v) [] = (_, _, refl)
print_props-cons ([], v) (q ∷ props) = (_, _, refl)
print_props-cons (c ∷ k, v) [] = (_, _, refl)
print_props-cons (c ∷ k, v) (q ∷ props) = (_, _, refl)

-- The session properties of a frame are those that the log printed: each key once, no key with an
-- equals sign, and no separator ", " in a key or a value.
pub parse_session_params-print :
    (props : Map Text)
    → IsPrintable props
    → UniqueKeys props
    → parse_session_params (print_params props) ≡ props
parse_session_params-print [] h u = unfold parse_session_params in refl
parse_session_params-print (p ∷ props) h u =
    let (d, s, e) = print_props-cons p props in
    parse_braced (print_props (p ∷ props)) d s e
    ∙ ap (λ ts. insert_props ts []) (split-print p props h)
    ∙ insert_props_all (p ∷ props) [] h u (λ k v e. unfold lookup in refl)
