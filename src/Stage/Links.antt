-- ===== src/Stage/Links.antt =====
-- `checkStageLinks` of stage/map.go. The stages are named by their ids, and `next` gives the ids of a
-- stage's `NextStages`.
pub mod Walks
pub mod Depth
use pbench.Prelude.{
  ℕ, zero, suc, ◌≡◌, refl, Bool, true, false, ◌||◌, List, [], ◌∷◌, Text, text_eq, if◌then◌else◌,
  length,
}

pub data Check : Type 0 where
  accepted : Check
  cycle : Text → Check
  duplicate : Text → Text → Check
  too_deep : Check  -- the depth that was given ran out

-- `visiting[id]`, and `nextStageMap[id]`
unfoldable pub has : Text → List Text → Bool
has t [] = false
has t (u ∷ us) = text_eq u t || has t us

pub if_accepted : Check → Check → Check
if_accepted accepted c = c
if_accepted (cycle t) c = cycle t
if_accepted (duplicate t u) c = duplicate t u
if_accepted too_deep c = too_deep

-- The loop over `stage.NextStages`, where `check` is the recursive call and `seen` is `nextStageMap`.
pub check_nexts : (Text → Check) → Text → List Text → List Text → Check
unfolding if_accepted has
check_nexts check id [] seen = accepted
check_nexts check id (c ∷ cs) seen =
    let rest = if_accepted (check c) (check_nexts check id cs (c ∷ seen)) in
    if has c seen then duplicate id c else rest

-- `checkStageLinksImpl`, with the depth of recursion that is left.
pub check_links_impl : ℕ → (Text → List Text) → List Text → Text → Check
unfolding check_nexts has
check_links_impl zero next visiting id = too_deep
check_links_impl (suc depth) next visiting id =
    let nexts = check_nexts (check_links_impl depth next (id ∷ visiting)) id (next id) [] in
    if has id visiting then cycle id else nexts

-- `checkStageLinks`, where `ids` names the stages.
unfoldable pub check_stage_links : List Text → (Text → List Text) → Text → Check
unfolding check_links_impl
check_stage_links ids next id = check_links_impl (suc (length ids)) next [] id
