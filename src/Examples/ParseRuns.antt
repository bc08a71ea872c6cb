-- ===== src/Examples/ParseRuns.antt =====
-- Stage files that link to each other in a cycle.
use mathlib.Core.List.Memᴰ.{head, tail}
use pbench.Prelude.{refl, false, some, List, [], ◌∷◌, Text, codes, arith}
use pbench.Stage.Config.{Stage, empty_stage}
use pbench.Stage.Parse.{Library, empty_store, parse_stage}
use pbench.Stage.Parse.Depth.{IsParsed, parse_stage-IsParsed}

abbrev linked_back : Stage
linked_back = record empty_stage {
  id = codes "b";
  base_dir = codes "/s";
  next_stage_paths = codes "a.json" ∷ codes "/s/b.json" ∷ [];
}

-- Every path is a file, and every file holds the same stage.
abbrev library : Library
library = record {
  stat = λ path. some false;
  abs = λ path. some path;
  decode = λ path s. some linked_back;
}

abbrev main : Stage
main = record linked_back { id = codes "m" }

abbrev ids : List Text
ids = codes "m" ∷ codes "b" ∷ []

parse_stage-IsParsed_example : IsParsed (parse_stage library 3 main empty_store)
parse_stage-IsParsed_example =
    parse_stage-IsParsed library ids (λ full s e. tail (head cc)) 3 main (head refl) (omega arith)
