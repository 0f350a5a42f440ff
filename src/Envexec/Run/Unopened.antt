-- ===== src/Envexec/Run/Unopened.antt =====
-- envexec/file_copyin.go and envexec/run_single.go: files that cannot be created in the environment.
use go_judge.Prelude.{◌≡◌, refl, ◌∙◌, arith, Bytes, Option, none, some, List, [], ◌∷◌}
use go_judge.Envexec.Results.{FileError}
use go_judge.Envexec.CopyIn.{CopyInFile, copy_in_file, copy_in_files, copy_in, run_single_copy_in}
use go_judge.Envexec.Commands.{ExecCmd}
use go_judge.Envexec.CopyIn.{symlink}
use go_judge.Envexec.Run.{
  Answers, run_single, run_single_copied, run_single_linked, run_single_wait,
}

-- No file fails in another way than in `Open`.
pub data IsUncreated : List CopyInFile → Type 0 where
  no_file : IsUncreated []
  uncreated :
      {f : CopyInFile} {rest : List CopyInFile} (e : Bytes)
      → f.open_error ≡ some e
      → IsUncreated rest
      → IsUncreated (f ∷ rest)
  created :
      {f : CopyInFile} {rest : List CopyInFile}
      → f.open_error ≡ none
      → f.source_error ≡ none
      → f.copy_error ≡ none
      → IsUncreated rest
      → IsUncreated (f ∷ rest)

copy_in_files-IsUncreated :
    (files : List CopyInFile) → IsUncreated files → (copy_in_files files).1 ≡ none
unfolding copy_in_files copy_in_file
copy_in_files-IsUncreated [] no_file = refl
copy_in_files-IsUncreated (f ∷ rest) (uncreated e h u) =
    ground (arith, copy_in_files-IsUncreated rest u)
copy_in_files-IsUncreated (f ∷ rest) (created h s c u) =
    ground (arith, copy_in_files-IsUncreated rest u)

run_single_copied_any :
    (c : ExecCmd) (a : Answers) (fe : List FileError × Option Bytes)
    → fe.1 ≡ none
    → run_single_copied c a fe ≡ run_single_copied c a ([], none)
unfolding run_single_copied
run_single_copied_any c a (fe, none) h = refl
run_single_copied_any c a (fe, some e) h = cc

-- What follows does not look at the files to copy in.
linked_same :
    (c : ExecCmd) (a : Answers) (fe : List FileError × Option Bytes)
    → run_single_linked c a fe ≡ run_single_linked c (record a { copy_in_files = [] }) fe
unfolding run_single_linked run_single_wait
linked_same c a (fe, none) = refl
linked_same c a (fe, some e) = refl

copied_in : (files : List CopyInFile) → IsUncreated files → (run_single_copy_in none files).1 ≡ none
unfolding run_single_copy_in copy_in
copied_in [] u = refl
copied_in (f ∷ rest) u = copy_in_files-IsUncreated (f ∷ rest) u

-- If the request to create the files to copy in succeeds as a whole and no file fails in another way
-- than in being created there, the result of a run is that of the same run with no files to copy in:
-- the command starts without the files that failed, and no file error is reported.
pub run_single_unopened :
    (c : ExecCmd) (a : Answers)
    → a.copy_in_batch ≡ none
    → IsUncreated a.copy_in_files
    → run_single c a ≡ run_single c (record a { copy_in_files = [] })
unfolding run_single run_single_copied run_single_copy_in
run_single_unopened c a h u =
    run_single_copied_any c a (run_single_copy_in a.copy_in_batch a.copy_in_files)
      (rw h (copied_in a.copy_in_files u))
    ∙ linked_same c a (symlink a.symlink_batch a.symlink_text a.links)
