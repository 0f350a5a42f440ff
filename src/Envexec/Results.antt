-- ===== src/Envexec/Results.antt =====
-- envexec/cmd.go: the result of a run and the errors of its files, and the statuses that a run has.
use go_judge.Prelude.{ℕ, Bytes, Bool, List}
use go_judge.Prelude.Int.{ℤ, pos}
use go_judge.Prelude.Dict.{Dict}

abbrev pub status_accepted : ℤ
status_accepted = pos 1

abbrev pub status_memory_limit_exceeded : ℤ
status_memory_limit_exceeded = pos 4

abbrev pub status_time_limit_exceeded : ℤ
status_time_limit_exceeded = pos 5

abbrev pub status_output_limit_exceeded : ℤ
status_output_limit_exceeded = pos 6

abbrev pub status_file_error : ℤ
status_file_error = pos 7

abbrev pub status_nonzero_exit_status : ℤ
status_nonzero_exit_status = pos 8

abbrev pub status_signalled : ℤ
status_signalled = pos 9

abbrev pub status_dangerous_syscall : ℤ
status_dangerous_syscall = pos 10

abbrev pub status_internal_error : ℤ
status_internal_error = pos 13

pub data FileErrorType : Type 0 where
  err_copy_in_open_file err_copy_in_create_dir err_copy_in_create_file : FileErrorType
  err_copy_in_copy_content err_copy_out_open err_copy_out_not_regular_file : FileErrorType
  err_copy_out_size_exceeded err_copy_out_create_file err_copy_out_copy_content : FileErrorType
  err_collect_size_exceeded err_symlink : FileErrorType

pub record FileError : Type 0 where
  pub name : Bytes
  pub kind : FileErrorType
  pub message : Bytes

-- `CmdCopyOutFile`.
pub record CopyOutFile : Type 0 where
  pub name : Bytes
  pub optional : Bool

-- `envexec.Result`, whose files are known by numbers.
pub record ExecResult : Type 0 where
  pub status : ℤ
  pub exit_status : ℤ
  pub error : Bytes
  pub time : ℤ
  pub run_time : ℤ
  pub memory : ℕ
  pub proc_peak : ℕ
  pub files : Dict ℕ
  pub file_error : List FileError
