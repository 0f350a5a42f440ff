-- ===== src/Worker/Command.antt =====
-- worker/model.go and worker/file.go: the types of a request and of its execution. Prepare is about
-- the commands for `envexec`, Conversion about its results, Execution about one request; what the
-- file store and `envexec` answer are arguments.
pub mod Prepare
pub mod Conversion
pub mod Execution
use go_judge.Prelude.{
  ℕ, suc, ◌+◌, Bytes, bytes_eq, codes, is_empty, Bool, true, false, not, ◌&&◌, ◌||◌, Option, none,
  some, List, [], ◌∷◌, ◌++◌, map, ltb, ◌==◌, if◌then◌else◌, length, get_or, replicate, set,
}
use go_judge.Envexec.Commands.{File, file_input, file_reader, file_collector}
use go_judge.Envexec.Results.{FileError, CopyOutFile}
use go_judge.Prelude.Int.{ℤ, pos, ltb_ℤ, leb_ℤ, pos_part, is_zero}
use go_judge.Prelude.Dict.{Dict, lookup, insert, has}
use go_judge.Prelude.Result.{Result, ok, err}

-- The implementations of `CmdFile`.
pub data CmdFile : Type 0 where
  local_file memory_file cached_file : Bytes → CmdFile
  collector : Bytes → ℕ → Bool → CmdFile

-- `EnvFile`, where `store` is `FileStore.Get`.
unfoldable pub env_file : (Bytes → Option File) → CmdFile → Result Bytes File
env_file store (local_file src) = ok (file_input src)
env_file store (memory_file content) = ok (file_reader content)
env_file store (cached_file id) = elim (store id) [
  | none ↦ err (codes "file does not exists with id: \"" ++ (id ++ codes "\""))
  | some f ↦ ok f
]
env_file store (collector name limit pipe) = ok (file_collector name limit pipe)

-- `worker.Cmd`.
pub record Cmd : Type 0 where
  pub args : List Bytes
  pub env : List Bytes
  pub files : List (Option CmdFile)
  pub cpu_limit : ℤ
  pub clock_limit : ℤ
  pub memory_limit : ℕ
  pub stack_limit : ℕ
  pub output_limit : ℕ
  pub proc_limit : ℕ
  pub open_file_limit : ℕ
  pub cpu_rate_limit : ℕ
  pub cpuset_limit : Bytes
  pub copy_in : Dict (Option CmdFile)
  pub symlinks : Dict Bytes
  pub copy_out : List CopyOutFile
  pub copy_out_cached : List CopyOutFile
  pub copy_out_max : ℕ
  pub copy_out_truncate : Bool
  pub tty : Bool
  pub data_segment_limit : Bool
  pub address_space_limit : Bool

-- The fields of `worker` that the execution reads.
pub record Config : Type 0 where
  pub time_limit_tick_interval : ℤ
  pub extra_memory_limit : ℕ
  pub output_limit : ℕ
  pub copy_out_limit : ℕ
  pub open_file_limit : ℕ

-- `worker.Result`.
pub record CmdResult : Type 0 where
  pub status : ℤ
  pub exit_status : ℤ
  pub error : Bytes
  pub time : ℤ
  pub run_time : ℤ
  pub memory : ℕ
  pub proc_peak : ℕ
  pub files : Dict ℕ
  pub file_ids : Dict Bytes
  pub file_error : List FileError

pub record Response : Type 0 where
  pub request_id : Bytes
  pub results : List CmdResult
  pub error : Option Bytes
