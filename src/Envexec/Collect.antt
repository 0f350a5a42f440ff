-- ===== src/Envexec/Collect.antt =====
-- envexec/file_collect.go: `copyOutAndCollect`, with what the files are found to be. The goroutines
-- count as run one after another, in the order in which they end.
pub mod Limits
pub mod Complete
use go_judge.Prelude.{
  codes, ℕ, ◌^◌, Bytes, Bool, true, false, not, ◌&&◌, ◌||◌, Option, none, some, List, [], ◌∷◌, ◌++◌,
  ltb, if◌then◌else◌,
}
use go_judge.Prelude.Dict.{Dict, insert}
use go_judge.Prelude.Result.{Result, ok, err}
use go_judge.Envexec.Results.{
  FileError, FileErrorType, CopyOutFile, err_copy_out_open, err_copy_out_not_regular_file,
  err_copy_out_size_exceeded, err_copy_out_create_file, err_copy_out_copy_content,
  err_collect_size_exceeded,
}

-- An error of a goroutine, which is `runner.StatusOutputLimitExceeded` or another one.
pub record StreamError : Type 0 where
  pub kind : FileErrorType
  pub is_output_limit : Bool
  pub message : Bytes

-- The file that is stored, and the error.
pub record Streamed : Type 0 where
  pub stored : Option ℕ
  pub error : Option StreamError

-- A file that the environment opened, where an error is its text as the code words it: the errors of
-- `Stat` and of `newStoreFile`, the bytes read, the file of the store, and the text of the error that
-- the code makes itself.
pub record Opened : Type 0 where
  pub stat_error : Option Bytes
  pub is_regular : Bool
  pub size : ℕ
  pub create_error : Option Bytes
  pub read : Result Bytes ℕ
  pub buffer : ℕ
  pub text : Bytes

-- `n > int64(limit)` for a size `n` of a file; from 2 ^ 63 on the limit is negative as an `int64`.
abbrev pub exceeds : ℕ → ℕ → Bool
exceeds n limit = if ltb limit (2 ^ 63) then ltb limit n else true

abbrev pub over : ℕ → ℕ → Bool
over n copy_out_max = ltb 0 copy_out_max && exceeds n copy_out_max

abbrev pub stream_failure : FileErrorType → Bytes → Streamed
stream_failure kind e = record {
  stored = none;
  error = some (record { kind = kind; is_output_limit = false; message = e });
}

-- `copyOutFileStream` from the copying on, from the file of the store on, from the checks on, and
-- whole.
unfoldable pub stream_read : ℕ → Opened → Result Bytes ℕ → Streamed
stream_read copy_out_max f (err e) = stream_failure err_copy_out_copy_content e
stream_read copy_out_max f (ok written) = record {
  stored = some f.buffer;
  error =
      if over f.size copy_out_max || over written copy_out_max
      then some
          (record { kind = err_copy_out_size_exceeded; is_output_limit = false; message = f.text })
      else none;
}

unfoldable pub stream_stored : ℕ → Opened → Option Bytes → Streamed
stream_stored copy_out_max f (some e) = stream_failure err_copy_out_create_file e
stream_stored copy_out_max f none = stream_read copy_out_max f f.read

unfoldable pub stream_checked : ℕ → Bool → Opened → Option Bytes → Streamed
stream_checked copy_out_max truncate f (some e) = stream_failure err_copy_out_open e
stream_checked copy_out_max truncate f none =
    if not f.is_regular
    then stream_failure err_copy_out_not_regular_file f.text
    else if over f.size copy_out_max && not truncate
    then stream_failure err_copy_out_size_exceeded f.text
    else stream_stored copy_out_max f f.create_error

unfoldable pub copy_out_file_stream : ℕ → Bool → Opened → Streamed
copy_out_file_stream copy_out_max truncate f = stream_checked copy_out_max truncate f f.stat_error

-- A collector of a pipe (`storage`) or of a file: the size of its buffer, if `Stat` succeeds, the
-- buffer, the error of `newStoreFile`, the error of the copy, and the copy.
pub record PipeCollector : Type 0 where
  pub name : Bytes
  pub limit : ℕ
  pub storage : Bool
  pub size : Option ℕ
  pub buffer : ℕ
  pub create_error : Option Bytes
  pub copy_error : Option Bytes
  pub stored : ℕ
  pub text : Bytes

unfoldable pub size_error : PipeCollector → Option ℕ → Option StreamError
size_error p none = none
size_error p (some n) =
    if exceeds n p.limit
    then some
        (record { kind = err_collect_size_exceeded; is_output_limit = true; message = p.text })
    else none

-- `collectPipe`.
unfoldable pub collect_pipe : PipeCollector → Streamed
collect_pipe p =
    if p.storage
    then record { stored = some p.buffer; error = size_error p p.size }
    else elim p.create_error [
      | some e ↦ stream_failure err_copy_out_create_file e
      | none ↦ elim p.copy_error [
        | some e ↦ stream_failure err_copy_out_copy_content e
        | none ↦ record { stored = some p.stored; error = size_error p p.size }
      ]
    ]

-- `rt`, `fileError` and the first error that a goroutine returns.
pub record Collected : Type 0 where
  pub files : Dict ℕ
  pub file_errors : List FileError
  pub wait_error : Option StreamError

-- The end of a goroutine.
abbrev pub put : Bytes → Option ℕ → Dict ℕ → Dict ℕ
put name none files = files
put name (some f) files = insert name f files

unfoldable pub add_streamed : Bytes → Streamed → Collected → Collected
add_streamed name s c = elim s.error [
  | none ↦ record c { files = put name s.stored c.files }
  | some e ↦ record {
    files = put name s.stored c.files;
    file_errors = c.file_errors ++ record { name = name; kind = e.kind; message = e.message } ∷ [];
    wait_error = elim c.wait_error [ none ↦ some e | some first ↦ some first ];
  }
]

abbrev open_error : Bytes → Bytes → Collected → Collected
open_error name e c = record c {
  file_errors = c.file_errors ++ record { name = name; kind = err_copy_out_open; message = e } ∷ [];
}

-- The loop of `copyOutFiles` over the files that `Open` gives, or their errors.
unfoldable pub copy_out_opened :
    ℕ → Bool → List (CopyOutFile × Result Bytes Opened) → Collected → Collected
copy_out_opened copy_out_max truncate [] c = c
copy_out_opened copy_out_max truncate ((n, err e) ∷ rest) c =
    copy_out_opened copy_out_max truncate rest (if n.optional then c else open_error n.name e c)
copy_out_opened copy_out_max truncate ((n, ok f) ∷ rest) c =
    copy_out_opened copy_out_max truncate rest
      (add_streamed n.name (copy_out_file_stream copy_out_max truncate f) c)

-- The files if `Open` fails as a whole.
unfoldable pub copy_out_unopened :
    Bytes → List (CopyOutFile × Result Bytes Opened) → Collected → Collected
copy_out_unopened e [] c = c
copy_out_unopened e ((n, f) ∷ rest) c =
    copy_out_unopened e rest
      (open_error n.name (codes "batch open failed " ++ (n.name ++ (codes ": " ++ e))) c)

unfoldable pub collect_pipes : List PipeCollector → Collected → Collected
collect_pipes [] c = c
collect_pipes (p ∷ ps) c = collect_pipes ps (add_streamed p.name (collect_pipe p) c)

-- `copyOutAndCollect`, where `batch` is the error of the whole `Open`.
unfoldable pub copy_out_and_collect :
    ℕ
    → Bool
    → Option Bytes
    → List (CopyOutFile × Result Bytes Opened)
    → List PipeCollector
    → Collected
copy_out_and_collect copy_out_max truncate batch [] ps =
    collect_pipes ps (record { files = []; file_errors = []; wait_error = none })
copy_out_and_collect copy_out_max truncate none (f ∷ fs) ps = collect_pipes ps (
    copy_out_opened copy_out_max truncate (f ∷ fs)
      (record { files = []; file_errors = []; wait_error = none }))
copy_out_and_collect copy_out_max truncate (some e) (f ∷ fs) ps =
    let c =
      collect_pipes ps (
        copy_out_unopened e (f ∷ fs)
          (record { files = []; file_errors = []; wait_error = none })) in
    record c {
      wait_error = some (record {
        kind = err_copy_out_open;
        is_output_limit = false;
        message = codes "copyout: batch open failed: " ++ e;
      });
    }
