-- ===== src/Envexec/CopyIn.antt =====
-- envexec/file_copyin.go: `copyIn` and `symlink`, with what the environment answers. The goroutines
-- count as run one after another, in the order in which they end.
use go_judge.Prelude.{◌++◌, codes, Bytes, Option, none, some, List, [], ◌∷◌, map}
use go_judge.Envexec.Results.{
  FileError, err_copy_in_open_file, err_copy_in_create_file, err_copy_in_copy_content, err_symlink,
}

-- A file to copy in, with the errors of `Open` in the environment, of `FileToReader` and of
-- `io.Copy`, each only if what comes before succeeds.
pub record CopyInFile : Type 0 where
  pub name : Bytes
  pub open_error : Option Bytes
  pub source_error : Option Bytes
  pub copy_error : Option Bytes

-- An error of a file, and the error that its goroutine returns.
pub record CopyFailure : Type 0 where
  pub file_error : Option FileError
  pub error : Option Bytes

unfoldable pub copy_in_file : CopyInFile → CopyFailure
copy_in_file f = elim f.open_error [
  | some e ↦ record {
    file_error = some (record { name = f.name; kind = err_copy_in_create_file; message = e });
    error = none;
  }
  | none ↦ elim f.source_error [
    | some e ↦ record {
      file_error = some (record { name = f.name; kind = err_copy_in_open_file; message = e });
      error = some e;
    }
    | none ↦ elim f.copy_error [
      | some e ↦ record {
        file_error = some (record { name = f.name; kind = err_copy_in_copy_content; message = e });
        error = some e;
      }
      | none ↦ record { file_error = none; error = none }
    ]
  ]
]

-- `mu` and `errgroup`: all errors of files, and the first error returned.
abbrev pub add_error : Option FileError → List FileError → List FileError
add_error none es = es
add_error (some e) es = e ∷ es

abbrev pub first_error : Option Bytes → Option Bytes → Option Bytes
first_error none other = other
first_error (some e) other = some e

unfoldable pub copy_in_files : List CopyInFile → List FileError × Option Bytes
copy_in_files [] = ([], none)
copy_in_files (f ∷ rest) =
    let failure = copy_in_file f in
    let others = copy_in_files rest in
    (add_error failure.file_error others.0, first_error failure.error others.1)

-- `copyIn`, with the error of the whole `Open`.
unfoldable pub copy_in : Option Bytes → List CopyInFile → List FileError × Option Bytes
copy_in (some e) files = (
  map (λ (f : CopyInFile). record { name = f.name; kind = err_copy_in_create_file; message = e })
      files,
  some (codes "copyin: batch open failed: " ++ e),
)
copy_in none files = copy_in_files files

-- `runSingleCopyIn`.
unfoldable pub run_single_copy_in : Option Bytes → List CopyInFile → List FileError × Option Bytes
run_single_copy_in batch [] = ([], none)
run_single_copy_in batch (f ∷ rest) = copy_in batch (f ∷ rest)

-- The links that fail, with the text of the error as the code words it.
unfoldable pub symlink_errors : List (Bytes × Option Bytes) → List FileError
symlink_errors [] = []
symlink_errors ((link, none) ∷ rest) = symlink_errors rest
symlink_errors ((link, some e) ∷ rest) =
    record { name = link; kind = err_symlink; message = e } ∷ symlink_errors rest

-- `symlink`, with the error of the whole `Symlink` and the text of the error for some links.
unfoldable pub symlink :
    Option Bytes → Bytes → List (Bytes × Option Bytes) → List FileError × Option Bytes
symlink batch failed [] = ([], none)
symlink (some e) failed (l ∷ links) = ([], some e)
symlink none failed (l ∷ links) = elim (symlink_errors (l ∷ links)) [
  | [] ↦ ([], none)
  | e ∷ es ↦ (e ∷ es, some failed)
]
