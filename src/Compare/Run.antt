-- ===== src/Compare/Run.antt =====
-- `compareRun`, `buildFileIdMap` and `generateDiff` of cmd/cmp/main.go. The regular expression, the command
-- diff and the writing of a file are parameters. Paths are those after the expansion of `~`.
pub mod Differences
use pbench.Prelude.{
  ℕ, suc, Bool, true, false, ◌||◌, Option, none, some, List, [], ◌∷◌, ◌++◌, Text, codes, Map,
  lookup, insert, delete, ltb, if◌then◌else◌,
}
use pbench.Prelude.Int.{ℤ, pos, eq_ℤ}
use pbench.Prelude.Paths.{join}

-- An entry of a directory.
pub record Entry : Type 0 where
  pub name : Text
  pub is_dir : Bool

pub record Tools : Type 0 where
  -- The group of the regular expression in a name that it matches.
  pub find_id : Text → Option Text
  -- The exit code of `diff -u` of two files, and its output.
  pub diff : Text → Text → ℤ × Text
  pub can_write : Text → Bool

-- The counters of `compareRun`, its map, and the files that it has written.
pub record Tally : Type 0 where
  pub file_id_map : Map Text
  pub probe_side_matched : ℕ
  pub file_compared : ℕ
  pub diff_written : ℕ
  pub error_file_count : ℕ
  pub diff_files : List (Text × Text)

abbrev pub start : Map Text → Tally
start m = record {
  file_id_map = m;
  probe_side_matched = 0;
  file_compared = 0;
  diff_written = 0;
  error_file_count = 0;
  diff_files = [];
}

module _ (c : Tools) where
  open c use {find_id, diff, can_write}

  -- `entry.IsDir()`, and the match of the name.
  unfoldable pub file_id : Entry → Option Text
  file_id e = if e.is_dir then none else find_id e.name

  -- The loop of `buildFileIdMap`.
  unfoldable pub add_files : Text → List Entry → Map Text → Map Text
  add_files path [] m = m
  add_files path (e ∷ es) m = elim (file_id e) [
    | none ↦ add_files path es m
    | some k ↦ add_files path es (insert k (join path e.name) m)
  ]

  unfoldable pub build_file_id_map : Text → Option (List Entry) → Option (Map Text)
  build_file_id_map path none = none
  build_file_id_map path (some es) = some (add_files path es [])

  -- `generateDiff`, or nothing where that is an error.
  unfoldable pub generate_diff : Text → Text → Option Text
  generate_diff build_side probe_side =
      let (code, output) = diff build_side probe_side in
      if eq_ℤ code (pos 0) || eq_ℤ code (pos 1) then some output else none

  unfoldable pub with_diffs : Text → Text → Text → Tally → Tally
  with_diffs output_path k [] t = record t { file_id_map = delete k t.file_id_map }
  with_diffs output_path k (b ∷ diffs) t =
      let path = join output_path (k ++ codes ".diff") in
      if can_write path
      then record t {
        file_id_map = delete k t.file_id_map;
        diff_written = suc t.diff_written;
        diff_files = (path, b ∷ diffs) ∷ t.diff_files;
      }
      else t

  unfoldable pub compared : Text → Text → Option Text → Tally → Tally
  compared output_path k none t = record t { error_file_count = suc t.error_file_count }
  compared output_path k (some diffs) t =
      with_diffs output_path k diffs (record t { file_compared = suc t.file_compared })

  -- A file of the probe side, with its id and the file of the build side that has the same.
  unfoldable pub matched : Text → Text → Text → Text → Option Text → Tally → Tally
  matched output_path path name k none t = t
  matched output_path path name k (some build_side) t =
      compared output_path k (generate_diff build_side (join path name))
        (record t { probe_side_matched = suc t.probe_side_matched })

  unfoldable pub compare_entry : Text → Text → Entry → Tally → Tally
  compare_entry output_path path e t = elim (file_id e) [
    | none ↦ t
    | some k ↦ matched output_path path e.name k (lookup k t.file_id_map) t
  ]

  unfoldable pub compare_entries : Text → Text → List Entry → Tally → Tally
  compare_entries output_path path [] t = t
  compare_entries output_path path (e ∷ es) t =
      compare_entries output_path path es (compare_entry output_path path e t)

-- The code that `compareRun` returns.
unfoldable pub return_code : Tally → ℕ
return_code t = if ltb 0 t.error_file_count || ltb 0 t.diff_written then 1 else 0

unfoldable pub report : Tools → Text → Text → Map Text → Option (List Entry) → ℕ × Option Tally
unfolding return_code
report c output_path path m none = (1, none)
report c output_path path m (some es) =
    let t = compare_entries c output_path path es (start m) in (return_code t, some t)

unfoldable pub with_map :
    Tools → Text → Text → Option (Map Text) → Bool → Option (List Entry) → ℕ × Option Tally
unfolding report
with_map c output_path probe_side_path none ready probe_side = (1, none)
with_map c output_path probe_side_path (some m) ready probe_side =
    if ready then report c output_path probe_side_path m probe_side else (1, none)

-- `compareRun`, with the exit code of a fatal error, which is one: the expression may not compile, a
-- directory may not be read, the output directory may not be ready.
unfoldable pub compare_run :
    Option Tools
    → Text
    → Text
    → Text
    → Option (List Entry)
    → Bool
    → Option (List Entry)
    → ℕ × Option Tally
unfolding with_map
compare_run none output_path build_side_path probe_side_path build_side ready probe_side = (1, none)
compare_run (some c) output_path build_side_path probe_side_path build_side ready probe_side =
    with_map c output_path probe_side_path (build_file_id_map c build_side_path build_side) ready
      probe_side
