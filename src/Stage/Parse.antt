-- ===== src/Stage/Parse.antt =====
-- `ParseStage`, `ParseStageFromFile` and `ReadStageFromFile` of stage/map.go. The stages that the map
-- points to are named by their ids; what the pointers share, `NextStages` and `wgPrerequisites`, is kept
-- under the ids.
pub mod Links
pub mod Counts
pub mod Depth
use pbench.Prelude.Paths.{is_abs, join, dir}
use pbench.Prelude.{
  ℕ, zero, suc, ◌≡◌, Bool, true, false, Option, none, some, List, [], ◌∷◌, ◌++◌, Text, Map, lookup,
  insert, text_eq, if◌then◌else◌,
}
use pbench.Stage.Config.{Stage, empty_stage}
use pbench.Stage.Files.{file_name_without_path_and_ext}

-- `os.Stat`, which tells whether a path is a directory, `filepath.Abs`, and the reading of a file into a
-- stage: `os.ReadFile`, `json.Unmarshal` and the validation of package validator.
pub record Library : Type 0 where
  pub stat : Text → Option Bool
  pub abs : Text → Option Text
  pub decode : Text → Stage → Option Stage

pub data ParseError : Type 0 where
  no_absolute_path : Text → ParseError
  bad_stage : Text → ParseError
  bad_query_file : Text → Text → ParseError
  bad_next : Text → Text → ParseError
  next_directory : Text → Text → ParseError
  too_deep : ParseError

pub data Result {ℓ} (A : Type ℓ) : Type ℓ where
  done : A → Result A
  failed : ParseError → Result A

pub and_then {ℓ κ} : {A : Type ℓ} {B : Type κ} → Result A → (A → Result B) → Result B
and_then (done a) rest = rest a
and_then (failed e) rest = failed e

pub record Store : Type 0 where
  pub stages : Map Stage
  pub next : Text → List Text
  pub prerequisites : Text → ℕ

abbrev pub empty_store : Store
empty_store = record { stages = []; next = λ id. []; prerequisites = λ id. 0 }

-- A pointed object with another field.
pub put {ℓ} : {A : Type ℓ} → Text → A → (Text → A) → Text → A
put k v f j = if text_eq k j then v else f j

-- `stage.NextStages = append(stage.NextStages, nextStage)` and `nextStage.wgPrerequisites.Add(1)`
pub add_link : Text → Text → Store → Store
unfolding put
add_link id child st = record st {
  next = put id (st.next id ++ child ∷ []) st.next;
  prerequisites = put child (suc (st.prerequisites child)) st.prerequisites;
}

-- The path itself, or from the base directory.
absolute : Text → Text → Text
absolute base_dir path = if is_abs path then path else join base_dir path

-- The loop over `stage.NextStagePaths` that links them.
pub link_all :
    (Text → Store → Result (Text × Store)) → Text → List Text → Store → Result (Text × Store)
unfolding and_then add_link
link_all parse id [] st = done (id, st)
link_all parse id (path ∷ paths) st =
    and_then (parse path st) (λ (child, st'). link_all parse id paths (add_link id child st'))

-- The stage that a file is decoded into.
abbrev pub named_after : Text → Stage
named_after full = record empty_stage {
  id = file_name_without_path_and_ext full;
  base_dir = dir full;
}

module _ (library : Library) where
  open library use {stat, abs, decode}

  query_file : Text → Text → Option Bool → Result (List Text) → Result (List Text)
  unfolding and_then
  query_file id path none rest = failed (bad_query_file id path)
  query_file id path (some is_dir) rest = and_then rest (λ paths. done (path ∷ paths))

  -- The query files with absolute paths, of which each must exist.
  query_files : Text → Text → List Text → Result (List Text)
  unfolding query_file absolute
  query_files id base_dir [] = done []
  query_files id base_dir (file ∷ files) =
      query_file id (absolute base_dir file) (stat (absolute base_dir file))
        (query_files id base_dir files)

  decoded : Text → Option Stage → Result Stage
  unfolding and_then query_files
  decoded path none = failed (bad_stage path)
  decoded path (some s) =
      and_then (query_files s.id s.base_dir s.query_files)
        (λ files. done (record s { query_files = files }))

  at_path : Text → Option Text → Result Stage
  unfolding decoded
  at_path path none = failed (no_absolute_path path)
  at_path path (some full) = decoded full (decode full (named_after full))

  -- `ReadStageFromFile`
  pub read_stage_from_file : Text → Result Stage
  unfolding at_path
  read_stage_from_file path = at_path path (abs path)

  next_path : Text → Text → Option Bool → Result (List Text) → Result (List Text)
  unfolding and_then
  next_path id path none rest = failed (bad_next id path)
  next_path id path (some true) rest = failed (next_directory id path)
  next_path id path (some false) rest = and_then rest (λ paths. done (path ∷ paths))

  -- The next stage paths, absolute, of which each must be a file.
  pub next_paths : Text → Text → List Text → Result (List Text)
  unfolding next_path absolute
  next_paths id base_dir [] = done []
  next_paths id base_dir (path ∷ paths) =
      next_path id (absolute base_dir path) (stat (absolute base_dir path))
        (next_paths id base_dir paths)

  known_file :
      (Stage → Store → Result (Text × Store))
      → Text
      → Text
      → Store
      → Option Stage
      → Result (Text × Store)
  unfolding and_then read_stage_from_file
  known_file parse name path st (some s) = done (name, st)
  known_file parse name path st none = and_then (read_stage_from_file path) (λ s. parse s st)

  -- `ParseStageFromFile`, where `parse` is `ParseStage`.
  pub parse_stage_from_file :
      (Stage → Store → Result (Text × Store)) → Text → Store → Result (Text × Store)
  unfolding known_file file_name_without_path_and_ext
  parse_stage_from_file parse path st =
      let name = file_name_without_path_and_ext path in
      known_file parse name path st (lookup name st.stages)

  pub enter : Stage → List Text → Store → Store
  enter s paths st = record st {
    stages = insert s.id (record s { next_stage_paths = paths }) st.stages;
  }

  known_stage :
      (Stage → Store → Result (Text × Store)) → Stage → Store → Option Stage → Result (Text × Store)
  unfolding and_then next_paths enter parse_stage_from_file link_all
  known_stage parse s st (some found) = done (s.id, st)
  known_stage parse s st none =
      and_then (next_paths s.id s.base_dir s.next_stage_paths)
        (λ paths. link_all (parse_stage_from_file parse) s.id paths (enter s paths st))

  -- `ParseStage`, with the depth of recursion that is left: the id of the stage, and the store.
  pub parse_stage : ℕ → Stage → Store → Result (Text × Store)
  unfolding known_stage
  parse_stage zero s st = failed too_deep
  parse_stage (suc depth) s st = known_stage (parse_stage depth) s st (lookup s.id st.stages)
