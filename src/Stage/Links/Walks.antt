-- ===== src/Stage/Links/Walks.antt =====
-- What `checkStageLinks` of stage/map.go decides: whether a walk along the links repeats a stage.
use pbench.Prelude.{
  ◌⊎◌, text_eq_self, length, ℕ, zero, suc, ◌≡◌, refl, Bool, true, false, ◌||◌, List, [], ◌∷◌, Text,
  text_eq, text_eq_iff, All, Bool-cases, inl, inr,
}
use pbench.Stage.Links.{
  Check, accepted, cycle, duplicate, too_deep, has, if_accepted, check_nexts, check_links_impl,
  check_stage_links,
}

-- A walk along the links, with the stages that it visits.
pub data Walk (next : Text → List Text) : Text → List Text → Type 0 where
  stop : (x : Text) → Walk next x (x ∷ [])
  go : (x y : Text) (w : List Text) → has y (next x) ≡ true → Walk next y w → Walk next x (x ∷ w)

-- No stage stands twice, and none is among those visited before.
abbrev pub Fresh : List Text → List Text → Type 0
Fresh visited [] = Unit
Fresh visited (x ∷ w) = (has x visited ≡ false) × Fresh (x ∷ visited) w

if_accepted_both : (c d : Check) → if_accepted c d ≡ accepted → (c ≡ accepted) × (d ≡ accepted)
unfolding if_accepted
if_accepted_both accepted d h = (refl, h)
if_accepted_both (cycle t) d h = absurd (cc h)
if_accepted_both (duplicate t u) d h = absurd (cc h)
if_accepted_both too_deep d h = absurd (cc h)

nexts_accepted :
    (check : Text → Check) (id : Text) (cs seen : List Text) (y : Text)
    → check_nexts check id cs seen ≡ accepted
    → has y cs ≡ true
    → check y ≡ accepted
unfolding check_nexts has
nexts_accepted check id [] seen y h k = absurd (cc k)
nexts_accepted check id (c ∷ cs) seen y h k = elim (Bool-cases (has c seen)) [
  | inl e ↦ absurd (cc (rw e at h))
  | inr e ↦
      let (first, rest) = if_accepted_both (check c) _ (rw e at h) in
      elim (Bool-cases (text_eq c y)) [
        | inl same ↦ rw ((text_eq_iff c y).0 same) at first
        | inr other ↦ nexts_accepted check id cs (c ∷ seen) y rest (rw other at k)
      ]
]

nexts_distinct :
    (check : Text → Check) (id : Text) (cs seen : List Text)
    → check_nexts check id cs seen ≡ accepted
    → Fresh seen cs
unfolding check_nexts
nexts_distinct check id [] seen h = tt
nexts_distinct check id (c ∷ cs) seen h = elim (Bool-cases (has c seen)) [
  | inl e ↦ absurd (cc (rw e at h))
  | inr e ↦ (e, nexts_distinct check id cs (c ∷ seen) (if_accepted_both (check c) _ (rw e at h)).1)
]

accepts :
    (depth : ℕ) (next : Text → List Text) (visiting : List Text) (id : Text) (w : List Text)
    → check_links_impl depth next visiting id ≡ accepted
    → Walk next id w
    → Fresh visiting w × All (λ x. Fresh [] (next x)) w
unfolding check_links_impl
accepts zero next visiting id w h k = absurd (cc h)
accepts (suc depth) next visiting _ _ h (stop id) = elim (Bool-cases (has id visiting)) [
  | inl e ↦ absurd (cc (rw e at h))
  | inr e ↦ (
    (e, tt),
    (nexts_distinct (check_links_impl depth next (id ∷ visiting)) id (next id) [] (rw e at h), tt),
  )
]
accepts (suc depth) next visiting _ _ h (go id y w link walk) =
    elim (Bool-cases (has id visiting)) [
      | inl e ↦ absurd (cc (rw e at h))
      | inr e ↦
          let check = check_links_impl depth next (id ∷ visiting) in
          let (fresh, distinct) =
            accepts depth next (id ∷ visiting) y w
              (nexts_accepted check id (next id) [] y (rw e at h) link) walk in
          ((e, fresh), (nexts_distinct check id (next id) [] (rw e at h), distinct))
    ]

or_true : (b : Bool) → (b || true) ≡ true
or_true true = refl
or_true false = refl

if_accepted-cycle :
    (c d : Check) (t : Text) → if_accepted c d ≡ cycle t → (c ≡ cycle t) ⊎ (d ≡ cycle t)
unfolding if_accepted
if_accepted-cycle accepted d t h = inr h
if_accepted-cycle (cycle u) d t h = inl h
if_accepted-cycle (duplicate u v) d t h = absurd (cc h)
if_accepted-cycle too_deep d t h = absurd (cc h)

nexts_cycle :
    (check : Text → Check) (id : Text) (cs seen : List Text) (t : Text)
    → check_nexts check id cs seen ≡ cycle t
    → (y : Text) × (has y cs ≡ true) × (check y ≡ cycle t)
unfolding check_nexts has
nexts_cycle check id [] seen t h = absurd (cc h)
nexts_cycle check id (c ∷ cs) seen t h = elim (Bool-cases (has c seen)) [
  | inl e ↦ absurd (cc (rw e at h))
  | inr e ↦ elim (if_accepted-cycle (check c) _ t (rw e at h)) [
    | inl first ↦ (c, rw (text_eq_self c) refl, first)
    | inr rest ↦
        let (y, member, found) = nexts_cycle check id cs (c ∷ seen) t rest in
        (y, rw member (or_true (text_eq c y)), found)
  ]
]

finds_cycle :
    (depth : ℕ) (next : Text → List Text) (visiting : List Text) (id t : Text)
    → check_links_impl depth next visiting id ≡ cycle t
    → (w : List Text) × Walk next id w × (Fresh visiting w → ⊥)
unfolding check_links_impl
finds_cycle zero next visiting id t h = absurd (cc h)
finds_cycle (suc depth) next visiting id t h = elim (Bool-cases (has id visiting)) [
  | inl e ↦ (id ∷ [], stop id, λ f. cc (f.0, e))
  | inr e ↦
      let check = check_links_impl depth next (id ∷ visiting) in
      let (y, link, found) = nexts_cycle check id (next id) [] t (rw e at h) in
      let (w, walk, repeats) = finds_cycle depth next (id ∷ visiting) y t found in
      (id ∷ w, go id y w link walk, λ f. repeats f.1)
]

-- If the links of a stage graph are accepted, then no walk from the stage visits a stage twice, and no
-- stage on a walk links to another twice.
check_stage_links_accepts :
    (ids : List Text) (next : Text → List Text) (id : Text) (w : List Text)
    → check_stage_links ids next id ≡ accepted
    → Walk next id w
    → Fresh [] w × All (λ x. Fresh [] (next x)) w
unfolding check_stage_links
check_stage_links_accepts ids next id w h walk = accepts (suc (length ids)) next [] id w h walk

-- If a cycle is reported, then some walk from the stage visits a stage twice.
pub check_stage_links_finds :
    (ids : List Text) (next : Text → List Text) (id t : Text)
    → check_stage_links ids next id ≡ cycle t
    → (w : List Text) × Walk next id w × (Fresh [] w → ⊥)
unfolding check_stage_links
check_stage_links_finds ids next id t h = finds_cycle (suc (length ids)) next [] id t h
