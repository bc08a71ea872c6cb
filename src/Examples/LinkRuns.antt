-- ===== src/Examples/LinkRuns.antt =====
-- Stage graphs.
use pbench.Prelude.{◌≡◌, ◌≢◌, refl, true, List, [], ◌∷◌, Text, codes, text_eq, if◌then◌else◌, arith}
use pbench.Stage.Links.{check_stage_links, too_deep, has}
use pbench.Stage.Links.Depth.{check_stage_links-Ends}

abbrev a : Text
a = codes "a"

abbrev b : Text
b = codes "b"

-- a links to b.
abbrev line : Text → List Text
line x = if text_eq x a then b ∷ [] else []

-- Every stage links to b.
abbrev loop : Text → List Text
loop x = b ∷ []

closed :
    (x y : Text) → has x (a ∷ b ∷ []) ≡ true → has y (loop x) ≡ true → has y (a ∷ b ∷ []) ≡ true
unfolding has
closed x y h k = ground arith

check_stage_links-Ends_example : check_stage_links (a ∷ b ∷ []) loop a ≢ too_deep
check_stage_links-Ends_example =
    check_stage_links-Ends (a ∷ b ∷ []) loop a closed (unfold has text_eq in refl)
