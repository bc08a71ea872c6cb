-- ===== src/Compare/Run/Differences.antt =====
-- What an exit code of zero of the command `cmp` (cmd/cmp/main.go) tells of the files.
use pbench.Prelude.{
  suc, ◌≤◌, ◌≡◌, refl, ap, sym, ◌∙◌, ◌⊎◌, inl, inr, true, false, Option, none, some, List, [], ◌∷◌,
  ◌++◌, arith, Text, codes, Map, lookup, lookup-delete, delete, text_eq_iff, All, Bool-cases,
  Option-cases, ◌≢◌,
}
use pbench.Prelude.Paths.{join}
use pbench.Compare.Run.{
  Entry, Tools, Tally, file_id, generate_diff, with_diffs, compared, matched, compare_entry,
  compare_entries, start, return_code, report, with_map, compare_run, build_file_id_map, add_files,
}

module _ (c : Tools) (output_path path : Text) where
  open c use {can_write}

  -- The counts of failures only grow, and the entry of another id stays.
  abbrev Grows : Tally → Tally → Type 0
  Grows t u = (t.error_file_count ≤ u.error_file_count) × (t.diff_written ≤ u.diff_written)

  delete_other : (k j : Text) (m : Map Text) → k ≢ j → lookup j (delete k m) ≡ lookup j m
  delete_other k j m h = ground (arith, lookup-delete k j m, text_eq_iff k j)

  with_diffs-Grows : (k d : Text) (t : Tally) → Grows t (with_diffs c output_path k d t)
  unfolding with_diffs
  with_diffs-Grows k [] t = (omega arith, omega arith)
  with_diffs-Grows k (b ∷ d) t =
      elim (Bool-cases (can_write (join output_path (k ++ codes ".diff")))) [
        | inl e ↦ rw e (omega arith, omega arith)
        | inr e ↦ rw e (omega arith, omega arith)
      ]

  compared-Grows : (k : Text) (o : Option Text) (t : Tally) → Grows t (compared c output_path k o t)
  unfolding compared
  compared-Grows k none t = (omega arith, omega arith)
  compared-Grows k (some d) t =
      with_diffs-Grows k d (record t { file_compared = suc t.file_compared })

  matched-Grows :
      (n k : Text) (o : Option Text) (t : Tally) → Grows t (matched c output_path path n k o t)
  unfolding matched
  matched-Grows n k none t = (omega arith, omega arith)
  matched-Grows n k (some b) t =
      compared-Grows k (generate_diff c b (join path n))
        (record t { probe_side_matched = suc t.probe_side_matched })

  compare_entry-Grows : (e : Entry) (t : Tally) → Grows t (compare_entry c output_path path e t)
  unfolding compare_entry
  compare_entry-Grows e t = elim (Option-cases (file_id c e)) [
    | inl q ↦ rw (q, compare_entry) (omega arith, omega arith)
    | inr (k, q) ↦ rw (q, compare_entry) (matched-Grows e.name k (lookup k t.file_id_map) t)
  ]

  compare_entries-Grows :
      (es : List Entry) (t : Tally) → Grows t (compare_entries c output_path path es t)
  unfolding compare_entries
  compare_entries-Grows [] t = (omega arith, omega arith)
  compare_entries-Grows (e ∷ es) t =
      let (a, b) = compare_entry-Grows e t in
      let (a', b') = compare_entries-Grows es (compare_entry c output_path path e t) in
      (omega arith, omega arith)

  with_diffs_other :
      (k j d : Text) (t : Tally)
      → k ≢ j
      → lookup j (with_diffs c output_path k d t).file_id_map ≡ lookup j t.file_id_map
  unfolding with_diffs
  with_diffs_other k j [] t h = delete_other k j t.file_id_map h
  with_diffs_other k j (b ∷ d) t h =
      elim (Bool-cases (can_write (join output_path (k ++ codes ".diff")))) [
        | inl e ↦ rw e (delete_other k j t.file_id_map h)
        | inr e ↦ rw e refl
      ]

  compared_other :
      (k j : Text) (o : Option Text) (t : Tally)
      → k ≢ j
      → lookup j (compared c output_path k o t).file_id_map ≡ lookup j t.file_id_map
  unfolding compared
  compared_other k j none t h = refl
  compared_other k j (some d) t h =
      with_diffs_other k j d (record t { file_compared = suc t.file_compared }) h

  matched_other :
      (n k j : Text) (o : Option Text) (t : Tally)
      → k ≢ j
      → lookup j (matched c output_path path n k o t).file_id_map ≡ lookup j t.file_id_map
  unfolding matched
  matched_other n k j none t h = refl
  matched_other n k j (some b) t h =
      compared_other k j (generate_diff c b (join path n))
        (record t { probe_side_matched = suc t.probe_side_matched }) h

  compare_entry_other :
      (e : Entry) (j : Text) (t : Tally)
      → file_id c e ≢ some j
      → lookup j (compare_entry c output_path path e t).file_id_map ≡ lookup j t.file_id_map
  unfolding compare_entry lookup
  compare_entry_other e j t h = elim (Option-cases (file_id c e)) [
    | inl q ↦ rw (q, compare_entry) refl
    | inr (k, q) ↦
        rw (q, compare_entry)
          (matched_other e.name k j (lookup k t.file_id_map) t (λ same. h (q ∙ ap some same)))
  ]

  -- The two files are the same, or they differ and the difference could not be written.
  abbrev pub IsSettled : Text → Text → Text → Type 0
  IsSettled k b p =
      (generate_diff c b p ≡ some [])
      ⊎ ((d : Text) × (generate_diff c b p ≡ some d)
          × (can_write (join output_path (k ++ codes ".diff")) ≡ false))

  abbrev HasNoFailure : Tally → Type 0
  HasNoFailure t = (t.error_file_count ≡ 0) × (t.diff_written ≡ 0)

  compared-IsSettled :
      (k b p : Text) (o : Option Text) (t : Tally)
      → generate_diff c b p ≡ o
      → HasNoFailure (compared c output_path k o t)
      → IsSettled k b p
  unfolding compared with_diffs
  compared-IsSettled k b p none t e (h, _) = absurd (omega arith)
  compared-IsSettled k b p (some []) t e h = inl e
  compared-IsSettled k b p (some (x ∷ d)) t e h =
      elim (Bool-cases (can_write (join output_path (k ++ codes ".diff")))) [
        | inl w ↦ absurd (written w h)
        | inr w ↦ inr (x ∷ d, e, w)
      ]
    where
      written :
          can_write (join output_path (k ++ codes ".diff")) ≡ true
          → HasNoFailure (compared c output_path k (some (x ∷ d)) t)
          → ⊥
      written w (_, g) = ground arith

  compare_entries-IsSettled :
      (k b : Text) (e : Entry) (before after : List Entry) (t : Tally)
      → All (λ e'. file_id c e' ≢ some k) before
      → file_id c e ≡ some k
      → lookup k t.file_id_map ≡ some b
      → HasNoFailure (compare_entries c output_path path (before ++ e ∷ after) t)
      → IsSettled k b (join path e.name)
  unfolding compare_entries compare_entry compared matched generate_diff
  compare_entries-IsSettled k b e [] after t _ i l (h, g) =
      let u = compare_entry c output_path path e t in
      let (a, a') = compare_entries-Grows after u in
      compared-IsSettled k b (join path e.name) (generate_diff c b (join path e.name))
        (record t { probe_side_matched = suc t.probe_side_matched }) refl
        (rw (sym step) (omega arith, omega arith))
    where
      step :
          compare_entry c output_path path e t
          ≡ compared c output_path k
              (generate_diff c b (join path e.name))
              (record t { probe_side_matched = suc t.probe_side_matched })
      step = rw (i, compare_entry) (rw (l, matched) refl)
  compare_entries-IsSettled k b e (f ∷ before) after t (n, ns) i l h =
      compare_entries-IsSettled k b e before after (compare_entry c output_path path f t) ns i
        (compare_entry_other f k t n ∙ l) h

return_code-zero : (t : Tally) → return_code t ≡ 0 → (t.error_file_count ≡ 0) × (t.diff_written ≡ 0)
unfolding return_code
return_code-zero t h = (ground arith, ground arith)

-- When the exit code is zero, the first file of the probe side with an id is the same as the file that
-- `buildFileIdMap` has for that id, or they differ and the difference could not be written.
pub compare_run_zero :
    (c : Tools) (output_path build_side_path probe_side_path : Text) (build_side : List Entry)
    (before after : List Entry) (e : Entry) (k b : Text)
    → All (λ e'. file_id c e' ≢ some k) before
    → file_id c e ≡ some k
    → lookup k (add_files c build_side_path build_side []) ≡ some b
    → (compare_run
        (some c)
        output_path
        build_side_path
        probe_side_path
        (some build_side)
        true
        (some (before ++ e ∷ after))).0
      ≡ 0
    → IsSettled c output_path probe_side_path k b (join probe_side_path e.name)
unfolding compare_run with_map report build_file_id_map
compare_run_zero c output_path build_side_path probe_side_path build_side before after e k b n i l
      h =
    let m = add_files c build_side_path build_side [] in
    compare_entries-IsSettled c output_path probe_side_path k b e before after (start m) n i l (
      return_code-zero
        (compare_entries c output_path probe_side_path (before ++ e ∷ after) (start m)) h)
