-- ===== src/Stage/Parse/Counts.antt =====
-- The counts with which the latches of the stages start (`ParseStage` of stage/map.go).
use pbench.Prelude.{
  ℕ, zero, suc, ◌+◌, ◌≡◌, ◌≢◌, refl, sym, ap, ◌∙◌, Option, none, some, List, [], ◌∷◌, ◌++◌, Text,
  lookup, UniqueKeys, text_eq, text_eq_iff, if◌then◌else◌, Bool-cases, inl, inr,
}
use pbench.Stage.Config.{Stage}
use pbench.Stage.Parse.{
  Library, Result, done, failed, and_then, Store, empty_store, put, add_link, link_all, next_paths,
  known_file, read_stage_from_file, parse_stage_from_file, enter, known_stage, parse_stage,
}
use pbench.Stage.Parse.Links.{
  links_to, links_to-insert, UniqueKeys-insert, links_to_present, added, entered, before_insert,
  inserted,
}

-- The latches count the links, no id stands twice, and a stage that is not in the map has no links.
pub record Counted (st : Store) : Type 0 where
  pub counted : (x : Text) → st.prerequisites x ≡ links_to x st.stages st.next
  pub unique : UniqueKeys st.stages
  pub unlinked : (k : Text) → lookup k st.stages ≡ none → st.next k ≡ []

-- No stage of a map is lost.
abbrev pub Grows : Store → Store → Type 0
Grows st st' = (k : Text) → lookup k st.stages ≢ none → lookup k st'.stages ≢ none

abbrev pub Good : Store → Result (Text × Store) → Type 0
Good st (done (id, st')) = Counted st' × Grows st st'
Good st (failed e) = Unit

other_put :
    (id k : Text) (v : List Text) (st : Store)
    → lookup k st.stages ≡ none
    → lookup id st.stages ≢ none
    → put id v st.next k ≡ st.next k
unfolding put
other_put id k v st absent present = elim (Bool-cases (text_eq id k)) [
  | inl e ↦ absurd (present (rw (← (text_eq_iff id k).0 e) at absent))
  | inr e ↦ rw e refl
]

pub add_link-Counted :
    (id child : Text) (st : Store)
    → Counted st
    → lookup id st.stages ≢ none
    → Counted (add_link id child st)
unfolding add_link
add_link-Counted id child st c present = record {
  counted = λ x.
      added x child st.prerequisites
      ∙ ap (λ n. n + (if text_eq child x then 1 else 0)) (c.counted x)
      ∙ sym (links_to_present x id child st.stages st.next c.unique present);
  unique = c.unique;
  unlinked =
      λ k absent. other_put id k (st.next id ++ child ∷ []) st absent present ∙ c.unlinked k absent;
}

abbrev pub GoodParse : (Text → Store → Result (Text × Store)) → Type 0
GoodParse parse = (path : Text) (st : Store) → Counted st → Good st (parse path st)

weaken : (st st' : Store) (r : Result (Text × Store)) → Grows st st' → Good st' r → Good st r
weaken st st' (failed e) g h = tt
weaken st st' (done (id, st2)) g (c, g') = (c, λ k h. g' k (g k h))

linked :
    (id : Text) (st : Store) (r : Result (Text × Store)) (rest : Store → Result (Text × Store))
    → Good st r
    → lookup id st.stages ≢ none
    → ((st' : Store) → Counted st' → lookup id st'.stages ≢ none → Good st' (rest st'))
    → Good st (and_then r (λ (child, st'). rest (add_link id child st')))
unfolding and_then
linked id st (failed e) rest h present k = tt
linked id st (done (child, st')) rest (c, grows) present k =
    let present' = grows id present in
    weaken st (add_link id child st') (rest (add_link id child st')) (unfold add_link in grows) (
      k (add_link id child st') (add_link-Counted id child st' c present')
        (unfold add_link in present'))

link_all-Good :
    (parse : Text → Store → Result (Text × Store)) (id : Text) (paths : List Text) (st : Store)
    → GoodParse parse
    → Counted st
    → lookup id st.stages ≢ none
    → Good st (link_all parse id paths st)
unfolding link_all
link_all-Good parse id [] st ih c present = (c, λ k h. h)
link_all-Good parse id (path ∷ paths) st ih c present =
    linked id st (parse path st) (link_all parse id paths) (ih path st c) present
      (λ st' c' present'. link_all-Good parse id paths st' ih c' present')

module _ (library : Library) where
  abbrev pub GoodStage : (Stage → Store → Result (Text × Store)) → Type 0
  GoodStage parse = (s : Stage) (st : Store) → Counted st → Good st (parse s st)

  read-Good :
      (parse : Stage → Store → Result (Text × Store)) (st : Store) (r : Result Stage)
      → GoodStage parse
      → Counted st
      → Good st (and_then r (λ s. parse s st))
  unfolding and_then
  read-Good parse st (done s) ih c = ih s st c
  read-Good parse st (failed e) ih c = tt

  known_file-Good :
      (parse : Stage → Store → Result (Text × Store)) (name path : Text) (st : Store)
      (found : Option Stage)
      → GoodStage parse
      → Counted st
      → Good st (known_file library parse name path st found)
  unfolding known_file
  known_file-Good parse name path st (some s) ih c = (c, λ k h. h)
  known_file-Good parse name path st none ih c =
      read-Good parse st (read_stage_from_file library path) ih c

  pub parse_file-Good :
      (parse : Stage → Store → Result (Text × Store))
      → GoodStage parse
      → GoodParse (parse_stage_from_file library parse)
  unfolding parse_stage_from_file
  parse_file-Good parse ih path st c = known_file-Good parse _ path st _ ih c

  pub enter-Counted :
      (s : Stage) (paths : List Text) (st : Store)
      → lookup s.id st.stages ≡ none
      → Counted st
      → Counted (enter library s paths st)
  unfolding enter
  enter-Counted s paths st h c = record {
    counted = λ x.
        c.counted x
        ∙ entered x (st.next s.id) (links_to x st.stages st.next) (c.unlinked s.id h)
        ∙ sym (links_to-insert x s.id (record s { next_stage_paths = paths }) st.stages st.next h);
    unique = UniqueKeys-insert s.id (record s { next_stage_paths = paths }) st.stages c.unique;
    unlinked = λ k absent.
        c.unlinked k
          (before_insert s.id k (record s { next_stage_paths = paths }) st.stages absent);
  }

  pub enter-Grows :
      (s : Stage) (paths : List Text) (st : Store)
      → Grows st (enter library s paths st) × (lookup s.id (enter library s paths st).stages ≢ none)
  unfolding enter
  enter-Grows s paths st = (
    λ k h e. h (before_insert s.id k (record s { next_stage_paths = paths }) st.stages e),
    λ e. inserted s.id (record s { next_stage_paths = paths }) st.stages e,
  )

  entered-Good :
      (parse : Stage → Store → Result (Text × Store)) (s : Stage) (st : Store)
      (paths : Result (List Text))
      → GoodStage parse
      → lookup s.id st.stages ≡ none
      → Counted st
      → Good st (
          and_then paths
            (λ ps. link_all (parse_stage_from_file library parse) s.id ps (enter library s ps st)))
  unfolding and_then
  entered-Good parse s st (failed e) ih h c = tt
  entered-Good parse s st (done ps) ih h c =
      let (grows, present) = enter-Grows s ps st in
      weaken st (enter library s ps st) _ grows (
        link_all-Good (parse_stage_from_file library parse) s.id ps (enter library s ps st)
          (parse_file-Good parse ih) (enter-Counted s ps st h c) present)

  known_stage-Good :
      (parse : Stage → Store → Result (Text × Store)) (s : Stage) (st : Store)
      (found : Option Stage)
      → GoodStage parse
      → lookup s.id st.stages ≡ found
      → Counted st
      → Good st (known_stage library parse s st found)
  unfolding known_stage
  known_stage-Good parse s st (some t) ih h c = (c, λ k p. p)
  known_stage-Good parse s st none ih h c =
      entered-Good parse s st (next_paths library s.id s.base_dir s.next_stage_paths) ih h c

  pub parse_stage-Good : (depth : ℕ) → GoodStage (parse_stage library depth)
  unfolding parse_stage
  parse_stage-Good zero s st c = tt
  parse_stage-Good (suc depth) s st c =
      known_stage-Good (parse_stage library depth) s st _ (parse_stage-Good depth) refl c

  pub empty-Counted : Counted empty_store
  unfolding links_to lookup
  empty-Counted = record { counted = λ x. refl; unique = tt; unlinked = λ k h. refl }
