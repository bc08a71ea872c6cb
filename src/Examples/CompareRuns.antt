-- ===== src/Examples/CompareRuns.antt =====
-- Runs of the command `cmp`.
use pbench.Prelude.{
  refl, arith, true, false, some, [], ◌∷◌, Text, codes, lookup, insert, delete, text_eq,
}
use pbench.Prelude.Int.{pos}
use pbench.Prelude.Paths.{join}
use pbench.Compare.Run.{
  Entry, Tools, file_id, add_files, build_file_id_map, compare_run, with_map, report, return_code,
  compare_entries, compare_entry, matched, compared, with_diffs, generate_diff,
}
use pbench.Compare.Run.Differences.{compare_run_zero, IsSettled}

abbrev file : Text → Entry
file n = record { name = n; is_dir = false }

-- Files of the name itself as id, that are all the same.
abbrev same_tools : Tools
same_tools = record { find_id = λ n. some n; diff = λ b p. (pos 0, []); can_write = λ p. true }

compare_run_zero_example :
    IsSettled same_tools (codes "out") (codes "p") (codes "q1") (codes "b/q1") (codes "p/q1")
unfolding join text_eq lookup insert delete file_id add_files build_file_id_map compare_run with_map
    report return_code compare_entries compare_entry matched compared with_diffs generate_diff
compare_run_zero_example =
    compare_run_zero same_tools (codes "out") (codes "b") (codes "p") (file (codes "q1") ∷ [])
      (file (codes "q0") ∷ []) [] (file (codes "q1")) (codes "q1") (codes "b/q1")
      ((λ h. ground arith), tt) refl refl refl
