-- ===== src/Stage/Files.antt =====
-- `expandQueryFileDirs` and `querySourceString` of stage/stage_utils.go. The file system is a parameter.
pub mod Expand
use pbench.Prelude.Paths.{join, base, without_ext}
use pbench.Prelude.{
  ℕ, ◌≡◌, Bool, true, false, Option, none, some, List, [], ◌∷◌, ◌++◌, Text, codes, itoa, ltb,
  if◌then◌else◌,
}
use pbench.Stage.Config.{Stage, Query, run_count}
use pbench.Stage.Queries.{number}

-- `os.Stat`, which tells whether a path is a directory, and `os.ReadDir` with the names of the entries
-- and whether each is a directory. Nothing stands for an error.
pub record Disk : Type 0 where
  pub stat : Text → Option Bool
  pub read_dir : Text → Option (List (Text × Bool))

pub data Expanded {ℓ} (A : Type ℓ) : Type ℓ where
  ok : A → Expanded A
  missing : Text → Expanded A
  unreadable : Text → Expanded A

-- The files among the entries of a directory.
pub files_in : Text → List (Text × Bool) → List Text
files_in dir [] = []
files_in dir ((name, true) ∷ entries) = files_in dir entries
files_in dir ((name, false) ∷ entries) = join dir name ∷ files_in dir entries

-- `if expanded != nil { expanded = append(expanded, qf) }`
pub push : Text → Option (List Text) → Option (List Text)
push file none = none
push file (some expanded) = some (expanded ++ file ∷ [])

-- `expanded`, or a copy of the files before this one.
pub expanded_or : List Text → Option (List Text) → List Text
expanded_or before none = before
expanded_or before (some expanded) = expanded

module _ (disk : Disk) where
  open disk use {stat, read_dir}

  after_read :
      Text
      → Option (List (Text × Bool))
      → (List (Text × Bool) → Expanded (Option (List Text)))
      → Expanded (Option (List Text))
  after_read file none rest = unreadable file
  after_read file (some entries) rest = rest entries

  after_stat :
      Text
      → Option Bool
      → Expanded (Option (List Text))
      → Expanded (Option (List Text))
      → Expanded (Option (List Text))
  after_stat file none plain dir = missing file
  after_stat file (some false) plain dir = plain
  after_stat file (some true) plain dir = dir

  -- The loop, behind the files of `before`.
  expand_loop : List Text → Option (List Text) → List Text → Expanded (Option (List Text))
  unfolding after_stat after_read push expanded_or files_in
  expand_loop before expanded [] = ok expanded
  expand_loop before expanded (file ∷ files) =
      after_stat file (stat file) (expand_loop (before ++ file ∷ []) (push file expanded) files) (
        after_read file (read_dir file) (λ entries.
          expand_loop (before ++ file ∷ [])
            (some (expanded_or before expanded ++ files_in file entries)) files))

  set_files : Stage → Expanded (Option (List Text)) → Expanded Stage
  set_files s (ok none) = ok s
  set_files s (ok (some files)) = ok (record s { query_files = files })
  set_files s (missing file) = missing file
  set_files s (unreadable file) = unreadable file

  -- `expandQueryFileDirs`: the stage after the call.
  unfoldable pub expand_query_file_dirs : Stage → Expanded Stage
  unfolding expand_loop set_files
  expand_query_file_dirs s = set_files s (expand_loop [] none s.query_files)

-- `fileNameWithoutPathAndExt` of stage/map.go
unfoldable pub file_name_without_path_and_ext : Text → Text
unfolding base without_ext
file_name_without_path_and_ext path = without_ext (base path)

source_name : Option Text → Text
unfolding file_name_without_path_and_ext
source_name none = codes "inline"
source_name (some file) = file_name_without_path_and_ext file

run_suffix : Bool → ℕ → Text
run_suffix true n = codes "_c" ++ itoa n
run_suffix false n = codes "_w" ++ itoa n

-- `querySourceString`
pub query_source_string : Stage → Query → Text
unfolding source_name run_suffix
query_source_string s q =
    let source = s.id ++ codes "_" ++ source_name q.file in
    let indexed = if ltb 1 q.batch_size then source ++ codes "_q" ++ itoa q.index else source in
    if ltb 1 (run_count (number s.cold_runs) (number s.warm_runs))
    then indexed ++ run_suffix q.cold_run q.sequence_no
    else indexed
