-- ===== src/Envexec/Commands.antt =====
-- envexec/cmd.go, envexec/file.go and envexec/group.go: a command, its files and the pipes of a group.
use go_judge.Prelude.{ℕ, Bytes, Bool, Option, List}
use go_judge.Prelude.Int.{ℤ}
use go_judge.Prelude.Dict.{Dict}
use go_judge.Envexec.Results.{CopyOutFile}

-- `File`, where an opened file is known by a number.
pub data File : Type 0 where
  file_input : Bytes → File
  file_reader : Bytes → File
  file_collector : Bytes → ℕ → Bool → File
  file_opened : ℕ → File

pub record PipeIndex : Type 0 where
  pub index : ℤ
  pub fd : ℤ

pub record PipeMap : Type 0 where
  pub in_end : PipeIndex
  pub out_end : PipeIndex
  pub cpuset : Bytes
  pub name : Bytes
  pub limit : ℕ
  pub proxy : Bool
  pub disable_zero_copy : Bool

-- `Cmd` as `prepareCmd` of worker/worker.go makes it, with the limits of its waiter.
pub record ExecCmd : Type 0 where
  pub args : List Bytes
  pub env : List Bytes
  pub files : List (Option File)
  pub tty : Bool
  pub time_limit : ℤ
  pub memory_limit : ℕ
  pub stack_limit : ℕ
  pub extra_memory_limit : ℕ
  pub output_limit : ℕ
  pub proc_limit : ℕ
  pub open_file_limit : ℕ
  pub cpu_rate_limit : ℕ
  pub cpuset_limit : Bytes
  pub data_segment_limit : Bool
  pub address_space_limit : Bool
  pub copy_in : Dict File
  pub symlinks : Dict Bytes
  pub copy_out : List CopyOutFile
  pub copy_out_max : ℕ
  pub copy_out_truncate : Bool
  pub wait_tick : ℤ
  pub wait_cpu : ℤ
  pub wait_clock : ℤ
