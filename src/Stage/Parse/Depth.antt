-- ===== src/Stage/Parse/Depth.antt =====
-- The recursion of `ParseStage` ends: each stage is entered into the map before its links are followed
-- (stage/map.go).
use mathlib.Core.List.{Memᴰ}
use mathlib.Core.List.Memᴰ.{head, tail}
use pbench.Prelude.{
  ℕ, zero, suc, ◌<◌, ◌≤◌, ◌≡◌, ◌≢◌, refl, Bool, true, false, Option, none, some, List, [], ◌∷◌,
  Text, Map, lookup, arith, Option-cases, inl, inr, length, ◌∙◌, sym, ap,
}
use pbench.Stage.Config.{Stage}
use pbench.Stage.Parse.{
  Library, Result, done, failed, too_deep, and_then, Store, empty_store, add_link, link_all,
  next_path, query_file, query_files, decoded, at_path, next_paths, known_file, named_after,
  read_stage_from_file, parse_stage_from_file, enter, known_stage, parse_stage,
}
use pbench.Stage.Parse.Counts.{
  Counted, Grows, Good, GoodParse, GoodStage, add_link-Counted, parse_file-Good, enter-Counted,
  enter-Grows, parse_stage-Good, empty-Counted,
}

-- A result that does not come from the bound on the depth.
abbrev NotDeep {ℓ} : {A : Type ℓ} → Result A → Type 0
NotDeep (done a) = Unit
NotDeep (failed e) = e ≢ too_deep

and_then-NotDeep :
    {A B : Type 0} (r : Result A) (f : A → Result B)
    → NotDeep r
    → ((a : A) → r ≡ done a → NotDeep (f a))
    → NotDeep (and_then r f)
unfolding and_then
and_then-NotDeep (done a) f h k = k a refl
and_then-NotDeep (failed e) f h k = h

-- How many of the ids are not in a map yet.
left : List Text → Map Stage → ℕ
left [] m = 0
left (k ∷ ks) m = let rest = left ks m in elim (lookup k m) [ none ↦ suc rest | some s ↦ rest ]

left_empty : (ids : List Text) → left ids [] ≡ length ids
unfolding left lookup
left_empty [] = refl
left_empty (k ∷ ks) = omega (arith, left_empty ks)

left_absent :
    (k : Text) (ks : List Text) (m : Map Stage)
    → lookup k m ≡ none
    → left (k ∷ ks) m ≡ suc (left ks m)
unfolding left
left_absent k ks m h = rw (h, left) refl

left_present :
    (k : Text) (ks : List Text) (m : Map Stage) → lookup k m ≢ none → left (k ∷ ks) m ≡ left ks m
unfolding left
left_present k ks m h = elim (Option-cases (lookup k m)) [
  | inl e ↦ absurd (h e)
  | inr (s, e) ↦ rw (e, left) refl
]

stays_absent :
    (k : Text) (st st' : Store)
    → Grows st st'
    → lookup k st'.stages ≡ none
    → lookup k st.stages ≡ none
stays_absent k st st' g e = elim (Option-cases (lookup k st.stages)) [
  | inl f ↦ f
  | inr (s, f) ↦ absurd (g k (λ x. cc) e)
]

left-Grows :
    (ids : List Text) (st st' : Store) → Grows st st' → left ids st'.stages ≤ left ids st.stages
left-Grows [] st st' g = unfold left in omega arith
left-Grows (k ∷ ks) st st' g = elim (Option-cases (lookup k st'.stages)) [
  | inl e ↦ omega (
    arith,
    left_absent k ks st'.stages e,
    left_absent k ks st.stages (stays_absent k st st' g e),
    left-Grows ks st st' g,
  )
  | inr (s, e) ↦ elim (Option-cases (lookup k st.stages)) [
    | inl f ↦ omega (
      arith,
      left_present k ks st'.stages (λ x. cc),
      left_absent k ks st.stages f,
      left-Grows ks st st' g,
    )
    | inr (t, f) ↦ omega (
      arith,
      left_present k ks st'.stages (λ x. cc),
      left_present k ks st.stages (λ x. cc),
      left-Grows ks st st' g,
    )
  ]
]

left_fewer :
    (ids : List Text) (st st' : Store) (id : Text)
    → Grows st st'
    → Memᴰ id ids
    → lookup id st.stages ≡ none
    → lookup id st'.stages ≢ none
    → left ids st'.stages < left ids st.stages
left_fewer [] st st' id g m h p = elim m [ ]
left_fewer (k ∷ ks) st st' id g (head same) h p = omega (
  arith,
  left_absent k ks st.stages (ap (λ i. lookup i st.stages) (sym same) ∙ h),
  left_present k ks st'.stages (λ x. p (ap (λ i. lookup i st'.stages) same ∙ x)),
  left-Grows ks st st' g,
)
left_fewer (k ∷ ks) st st' id g (tail m) h p = elim (Option-cases (lookup k st'.stages)) [
  | inl e ↦ omega (
    arith,
    left_absent k ks st'.stages e,
    left_absent k ks st.stages (stays_absent k st st' g e),
    left_fewer ks st st' id g m h p,
  )
  | inr (s, e) ↦ elim (Option-cases (lookup k st.stages)) [
    | inl f ↦ omega (
      arith,
      left_present k ks st'.stages (λ x. cc),
      left_absent k ks st.stages f,
      left_fewer ks st st' id g m h p,
    )
    | inr (t, f) ↦ omega (
      arith,
      left_present k ks st'.stages (λ x. cc),
      left_present k ks st.stages (λ x. cc),
      left_fewer ks st st' id g m h p,
    )
  ]
]

Good-done :
    (st : Store) (r : Result (Text × Store)) (a : Text × Store)
    → Good st r
    → r ≡ done a
    → Counted a.1 × Grows st a.1
Good-done st (done b) a g e = let same : b ≡ a = cc in rw (← same) g
Good-done st (failed x) a g e = absurd (cc e)

link_all-NotDeep :
    (ids : List Text) (depth : ℕ) (parse : Text → Store → Result (Text × Store)) (id : Text)
    (paths : List Text) (st : Store)
    → GoodParse parse
    → ((path : Text) (st : Store)
        → Counted st
        → left ids st.stages < depth
        → NotDeep (parse path st))
    → Counted st
    → lookup id st.stages ≢ none
    → left ids st.stages < depth
    → NotDeep (link_all parse id paths st)
unfolding link_all
link_all-NotDeep ids depth parse id [] st good deep c present h = tt
link_all-NotDeep ids depth parse id (path ∷ paths) st good deep c present h =
    and_then-NotDeep (parse path st) _ (deep path st c h) (λ (child, st') e.
      let (c', grows) = Good-done st (parse path st) (child, st') (good path st c) e in
      link_all-NotDeep ids depth parse id paths (add_link id child st') good deep
        (add_link-Counted id child st' c' (grows id present)) (unfold add_link in grows id present)
        (unfold add_link in omega (arith, left-Grows ids st st' grows)))

module _ (library : Library) where
  query_file-NotDeep :
      (id path : Text) (found : Option Bool) (rest : Result (List Text))
      → NotDeep rest
      → NotDeep (query_file library id path found rest)
  unfolding query_file
  query_file-NotDeep id path none rest h = λ x. cc
  query_file-NotDeep id path (some is_dir) rest h = and_then-NotDeep rest _ h (λ paths e. tt)

  query_files-NotDeep :
      (id base : Text) (files : List Text) → NotDeep (query_files library id base files)
  unfolding query_files
  query_files-NotDeep id base [] = tt
  query_files-NotDeep id base (file ∷ files) =
      query_file-NotDeep id _ _ (query_files library id base files)
        (query_files-NotDeep id base files)

  decoded-NotDeep : (path : Text) (found : Option Stage) → NotDeep (decoded library path found)
  unfolding decoded
  decoded-NotDeep path none = λ x. cc
  decoded-NotDeep path (some s) =
      and_then-NotDeep (query_files library s.id s.base_dir s.query_files) _
        (query_files-NotDeep s.id s.base_dir s.query_files) (λ files e. tt)

  at_path-NotDeep : (path : Text) (full : Option Text) → NotDeep (at_path library path full)
  unfolding at_path
  at_path-NotDeep path none = λ x. cc
  at_path-NotDeep path (some full) = decoded-NotDeep full _

  read-NotDeep : (path : Text) → NotDeep (read_stage_from_file library path)
  unfolding read_stage_from_file
  read-NotDeep path = at_path-NotDeep path (library.abs path)

  next_path-NotDeep :
      (id path : Text) (found : Option Bool) (rest : Result (List Text))
      → NotDeep rest
      → NotDeep (next_path library id path found rest)
  unfolding next_path
  next_path-NotDeep id path none rest h = λ x. cc
  next_path-NotDeep id path (some true) rest h = λ x. cc
  next_path-NotDeep id path (some false) rest h = and_then-NotDeep rest _ h (λ paths e. tt)

  next_paths-NotDeep :
      (id base : Text) (paths : List Text) → NotDeep (next_paths library id base paths)
  unfolding next_paths
  next_paths-NotDeep id base [] = tt
  next_paths-NotDeep id base (path ∷ paths) =
      next_path-NotDeep id _ _ (next_paths library id base paths) (next_paths-NotDeep id base paths)

-- A parse that ends: its latches are counted, or it fails for another reason than the depth.
abbrev pub IsParsed : Result (Text × Store) → Type 0
IsParsed (done (id, st)) = Counted st
IsParsed (failed e) = e ≢ too_deep

both : (st : Store) (r : Result (Text × Store)) → Good st r → NotDeep r → IsParsed r
both st (done a) g n = g.0
both st (failed e) g n = n

module _ (library : Library) (ids : List Text)
    (known_ids : (full : Text) (s : Stage)
      → library.decode full (named_after full) ≡ some s
      → Memᴰ s.id ids) where
  with_files :
      (s t : Stage) (r : Result (List Text))
      → and_then r (λ files. done (record s { query_files = files })) ≡ done t
      → s.id ≡ t.id
  unfolding and_then
  with_files s t (done files) e = cc
  with_files s t (failed x) e = absurd (cc e)

  decoded_within :
      (full : Text) (found : Option Stage) (t : Stage)
      → library.decode full (named_after full) ≡ found
      → decoded library full found ≡ done t
      → Memᴰ t.id ids
  unfolding decoded
  decoded_within full none t h e = absurd (cc e)
  decoded_within full (some s) t h e = rw (← (with_files s t _ e)) (known_ids full s h)

  at_path_within :
      (path : Text) (full : Option Text) (t : Stage)
      → at_path library path full ≡ done t
      → Memᴰ t.id ids
  unfolding at_path
  at_path_within path none t e = absurd (cc e)
  at_path_within path (some full) t e = decoded_within full _ t refl e

  read_within :
      (path : Text) (t : Stage) → read_stage_from_file library path ≡ done t → Memᴰ t.id ids
  unfolding read_stage_from_file
  read_within path t e = at_path_within path (library.abs path) t e

  -- Fewer ids are missing in the map than the depth.
  Deep : ℕ → (Stage → Store → Result (Text × Store)) → Type 0
  Deep depth parse =
      (s : Stage) (st : Store)
      → Memᴰ s.id ids
      → Counted st
      → left ids st.stages < depth
      → NotDeep (parse s st)

  known_file-NotDeep :
      (depth : ℕ) (parse : Stage → Store → Result (Text × Store)) (name path : Text) (st : Store)
      (found : Option Stage)
      → Deep depth parse
      → Counted st
      → left ids st.stages < depth
      → NotDeep (known_file library parse name path st found)
  unfolding known_file
  known_file-NotDeep depth parse name path st (some s) ih c h = tt
  known_file-NotDeep depth parse name path st none ih c h =
      and_then-NotDeep (read_stage_from_file library path) (λ s. parse s st)
        (read-NotDeep library path) (λ s e. unfold Deep in ih s st (read_within path s e) c h)

  known_stage-NotDeep :
      (depth : ℕ) (parse : Stage → Store → Result (Text × Store)) (s : Stage) (st : Store)
      (found : Option Stage)
      → Deep depth parse
      → GoodStage library parse
      → lookup s.id st.stages ≡ found
      → Memᴰ s.id ids
      → Counted st
      → left ids st.stages < suc depth
      → NotDeep (known_stage library parse s st found)
  unfolding known_stage
  known_stage-NotDeep depth parse s st (some t) ih good e m c h = tt
  known_stage-NotDeep depth parse s st none ih good e m c h =
      and_then-NotDeep (next_paths library s.id s.base_dir s.next_stage_paths) _
        (next_paths-NotDeep library s.id s.base_dir s.next_stage_paths)
        (λ ps x.
          let (grows, present) = enter-Grows library s ps st in
          link_all-NotDeep ids depth (parse_stage_from_file library parse) s.id ps
            (enter library s ps st) (parse_file-Good library parse good)
            (λ path st' c' h'.
              unfold parse_stage_from_file in known_file-NotDeep depth parse _ path st' _ ih c' h')
            (enter-Counted library s ps st e c) present
            (omega (arith, left_fewer ids st (enter library s ps st) s.id grows m e present)))

  parse_stage-NotDeep : (depth : ℕ) → Deep depth (parse_stage library depth)
  unfolding parse_stage Deep
  parse_stage-NotDeep zero s st m c h = omega arith
  parse_stage-NotDeep (suc depth) s st m c h =
      known_stage-NotDeep depth (parse_stage library depth) s st _ (parse_stage-NotDeep depth)
        (parse_stage-Good library depth) refl m c h

  -- The stage files have ids of a finite list, and the depth exceeds its length: the parse of a stage
  -- with an id of the list, and of all that it links to, cycles of links included, comes to its end. It
  -- fails on a file or a path, or `wgPrerequisites` of every stage counts the links to it, of all stages
  -- that were parsed, and no id stands twice in the map.
  pub parse_stage-IsParsed :
      (depth : ℕ) (s : Stage)
      → Memᴰ s.id ids
      → length ids < depth
      → IsParsed (parse_stage library depth s empty_store)
  parse_stage-IsParsed depth s m h =
      both empty_store (parse_stage library depth s empty_store)
        (parse_stage-Good library depth s empty_store (empty-Counted library))
        (unfold Deep in
          parse_stage-NotDeep depth s empty_store m (empty-Counted library)
            (omega (arith, left_empty ids)))
