-- ===== src/Stage/Files/Expand.antt =====
-- The files of a stage after `expandQueryFileDirs` of stage/stage_utils.go.
use pbench.Prelude.{
  ◌≡◌, refl, sym, ap, ◌∙◌, Bool, true, false, Option, none, some, List, [], ◌∷◌, ◌++◌, Text,
  append_assoc, append-nil,
}
use pbench.Stage.Config.{Stage}
use pbench.Stage.Files.{
  Disk, Expanded, ok, missing, unreadable, files_in, push, expanded_or, after_read, after_stat,
  expand_loop, set_files, expand_query_file_dirs,
}

prepend : List Text → Expanded (List Text) → Expanded (List Text)
prepend xs (ok ys) = ok (xs ++ ys)
prepend xs (missing file) = missing file
prepend xs (unreadable file) = unreadable file

module _ (disk : Disk) where
  -- What a file of the list stands for: itself, or the files in it.
  expand_file : Text → Option Bool → Option (List (Text × Bool)) → Expanded (List Text)
  expand_file file none entries = missing file
  expand_file file (some false) entries = ok (file ∷ [])
  expand_file file (some true) none = unreadable file
  expand_file file (some true) (some entries) = ok (files_in file entries)

  append_to : Expanded (List Text) → Expanded (List Text) → Expanded (List Text)
  append_to (ok xs) rest = prepend xs rest
  append_to (missing file) rest = missing file
  append_to (unreadable file) rest = unreadable file

  -- Each file expanded on its own, one behind the other, up to the first error.
  expand_each : List Text → Expanded (List Text)
  unfolding expand_file append_to prepend
  expand_each [] = ok []
  expand_each (file ∷ files) =
      append_to (expand_file file (disk.stat file) (disk.read_dir file)) (expand_each files)

  -- The list behind the loop, where the files were `all`.
  outcome : List Text → Expanded (Option (List Text)) → Expanded (List Text)
  outcome all (ok none) = ok all
  outcome all (ok (some files)) = ok files
  outcome all (missing file) = missing file
  outcome all (unreadable file) = unreadable file

  prepend-prepend :
      (xs ys : List Text) (e : Expanded (List Text))
      → prepend (xs ++ ys) e ≡ prepend xs (prepend ys e)
  unfolding prepend
  prepend-prepend xs ys (ok zs) = ap ok (append_assoc xs ys zs)
  prepend-prepend xs ys (missing file) = refl
  prepend-prepend xs ys (unreadable file) = refl

  expanded_or-push :
      (before : List Text) (file : Text) (expanded : Option (List Text))
      → expanded_or (before ++ file ∷ []) (push file expanded)
        ≡ expanded_or before expanded ++ file ∷ []
  unfolding expanded_or push
  expanded_or-push before file none = refl
  expanded_or-push before file (some xs) = refl

  step_lem :
      (all before : List Text) (expanded : Option (List Text)) (file : Text) (files : List Text)
      (kind : Option Bool) (entries : Option (List (Text × Bool)))
      → outcome all (expand_loop disk (before ++ file ∷ []) (push file expanded) files)
        ≡ prepend (expanded_or (before ++ file ∷ []) (push file expanded)) (expand_each files)
      → ((entries : List (Text × Bool))
          → outcome all (
              expand_loop disk
                (before ++ file ∷ [])
                (some (expanded_or before expanded ++ files_in file entries))
                files)
            ≡ prepend (expanded_or before expanded ++ files_in file entries) (expand_each files))
      → outcome all (
          after_stat disk file kind
            (expand_loop disk (before ++ file ∷ []) (push file expanded) files)
            (after_read disk file entries (λ es.
              expand_loop disk
                (before ++ file ∷ [])
                (some (expanded_or before expanded ++ files_in file es))
                files)))
        ≡ prepend
            (expanded_or before expanded)
            (append_to (expand_file file kind entries) (expand_each files))
  unfolding after_stat after_read append_to expand_file outcome prepend
  step_lem all before expanded file files none entries h k = refl
  step_lem all before expanded file files (some false) entries h k =
      h
      ∙ ap (λ xs. prepend xs (expand_each files)) (expanded_or-push before file expanded)
      ∙ prepend-prepend (expanded_or before expanded) (file ∷ []) (expand_each files)
  step_lem all before expanded file files (some true) none h k = refl
  step_lem all before expanded file files (some true) (some es) h k =
      k es ∙ prepend-prepend (expanded_or before expanded) (files_in file es) (expand_each files)

  loop_lem :
      (all before : List Text) (expanded : Option (List Text)) (files : List Text)
      → all ≡ before ++ files
      → outcome all (expand_loop disk before expanded files)
        ≡ prepend (expanded_or before expanded) (expand_each files)
  unfolding expand_loop expand_each outcome prepend expanded_or
  loop_lem all before none [] h = ap ok h
  loop_lem all before (some xs) [] h = ap ok (sym (append-nil xs))
  loop_lem all before expanded (file ∷ files) h =
      step_lem all before expanded file files (disk.stat file) (disk.read_dir file)
        (loop_lem all (before ++ file ∷ []) (push file expanded) files
          (h ∙ sym (append_assoc before (file ∷ []) files)))
        (λ entries.
          loop_lem all (before ++ file ∷ [])
            (some (expanded_or before expanded ++ files_in file entries)) files
            (h ∙ sym (append_assoc before (file ∷ []) files)))

  -- The query files of the stage after the call, or its error.
  abbrev pub files_of : Expanded Stage → Expanded (List Text)
  files_of (ok s) = ok s.query_files
  files_of (missing file) = missing file
  files_of (unreadable file) = unreadable file

  files_of-set_files :
      (s : Stage) (e : Expanded (Option (List Text)))
      → files_of (set_files disk s e) ≡ outcome s.query_files e
  unfolding set_files outcome
  files_of-set_files s (ok none) = refl
  files_of-set_files s (ok (some files)) = refl
  files_of-set_files s (missing file) = refl
  files_of-set_files s (unreadable file) = refl

  prepend_nil : (e : Expanded (List Text)) → prepend [] e ≡ e
  unfolding prepend
  prepend_nil (ok xs) = refl
  prepend_nil (missing file) = refl
  prepend_nil (unreadable file) = refl

  -- The list that is built only from the first directory on is the list in which every directory is
  -- replaced by its files, in order; the first path that is missing or cannot be read is the error.
  expand_query_file_dirs-expand_each :
      (s : Stage) → files_of (expand_query_file_dirs disk s) ≡ expand_each s.query_files
  unfolding expand_query_file_dirs expanded_or
  expand_query_file_dirs-expand_each s =
      files_of-set_files s (expand_loop disk [] none s.query_files)
      ∙ loop_lem s.query_files [] none s.query_files refl
      ∙ prepend_nil (expand_each s.query_files)
