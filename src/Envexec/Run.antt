-- ===== src/Envexec/Run.antt =====
-- envexec/run_single.go, envexec/single.go, envexec/group.go and envexec/util.go: the run of a
-- command, with what the environment answers.
pub mod Accepted
pub mod Stored
pub mod Unopened
use go_judge.Prelude.{
  ℕ, ◌+◌, Bytes, codes, is_empty, Bool, true, false, ◌&&◌, Option, none, some, List, [], ◌∷◌, map,
  ltb, if◌then◌else◌,
}
use go_judge.Prelude.Int.{ℤ, pos, ltb_ℤ}
use go_judge.Prelude.Result.{Result, ok, err}
use go_judge.Envexec.Results.{
  FileError, CopyOutFile, ExecResult, status_accepted, status_memory_limit_exceeded,
  status_time_limit_exceeded, status_output_limit_exceeded, status_file_error,
  status_nonzero_exit_status, status_signalled, status_dangerous_syscall, status_internal_error,
}
use go_judge.Envexec.Descriptors.{Fault, failed, panicked}
use go_judge.Envexec.Commands.{ExecCmd}
use go_judge.Envexec.CopyIn.{CopyInFile, run_single_copy_in, symlink}
use go_judge.Envexec.Collect.{Opened, PipeCollector, StreamError, Collected, copy_out_and_collect}

-- The values of `runner.Status` that the code names, and the others.
pub data RunnerStatus : Type 0 where
  runner_normal runner_signalled runner_nonzero_exit_status runner_memory_limit_exceeded :
      RunnerStatus
  runner_time_limit_exceeded runner_output_limit_exceeded runner_disallowed_syscall : RunnerStatus
  runner_error runner_other : RunnerStatus

pub record RunnerResult : Type 0 where
  pub status : RunnerStatus
  pub exit_status : ℤ
  pub error : Bytes
  pub time : ℤ
  pub running_time : ℤ
  pub memory : ℕ
  pub proc_peak : ℕ

-- `convertStatus`.
unfoldable pub convert_status : RunnerStatus → ℤ
convert_status runner_normal = status_accepted
convert_status runner_signalled = status_signalled
convert_status runner_nonzero_exit_status = status_nonzero_exit_status
convert_status runner_memory_limit_exceeded = status_memory_limit_exceeded
convert_status runner_time_limit_exceeded = status_time_limit_exceeded
convert_status runner_output_limit_exceeded = status_output_limit_exceeded
convert_status runner_disallowed_syscall = status_dangerous_syscall
convert_status runner_error = status_internal_error
convert_status runner_other = status_internal_error

-- What the environment answers in a run: to the batches of `Open` and `Symlink`, to `Execve`, and
-- the result of the process; `opened` takes the place of a file in `CopyOut`.
pub record Answers : Type 0 where
  pub copy_in_batch : Option Bytes
  pub copy_in_files : List CopyInFile
  pub symlink_batch : Option Bytes
  pub symlink_text : Bytes
  pub links : List (Bytes × Option Bytes)
  pub execve : Option Bytes
  pub process : RunnerResult
  pub copy_out_batch : Option Bytes
  pub opened : ℕ → Result Bytes Opened
  pub collectors : List PipeCollector

-- `runSingleWait`, whose process ends.
unfoldable pub run_single_wait : Answers → RunnerResult
run_single_wait a = elim a.execve [
  | some e ↦ record {
    status = runner_error;
    exit_status = pos 0;
    error = e;
    time = pos 0;
    running_time = pos 0;
    memory = 0;
    proc_peak = 0;
  }
  | none ↦ a.process
]

-- `resultFileError`.
abbrev pub result_file_error : Bytes → List FileError → ExecResult
result_file_error e fe = record {
  status = status_file_error;
  exit_status = pos 0;
  error = e;
  time = pos 0;
  run_time = pos 0;
  memory = 0;
  proc_peak = 0;
  files = [];
  file_error = fe;
}

-- The status of an error of `copyOutAndCollect`.
abbrev pub error_status : StreamError → ℤ
error_status e =
    if e.is_output_limit then convert_status runner_output_limit_exceeded else status_file_error

-- The status and the error of a process that ends, after the errors of its files.
unfoldable pub with_collect_error : RunnerResult → Option StreamError → List FileError → ℤ × Bytes
with_collect_error rt none [] = (convert_status rt.status, rt.error)
with_collect_error rt none (f ∷ fe) = (status_file_error, f.message)
with_collect_error rt (some e) fe = (error_status e, e.message)

abbrev pub is_normal : RunnerStatus → Bool
is_normal runner_normal = true
is_normal _ = false

unfoldable pub collected_status : RunnerResult → Collected → ℤ × Bytes
collected_status rt c =
    if is_normal rt.status && is_empty rt.error
    then with_collect_error rt c.wait_error c.file_errors
    else (convert_status rt.status, rt.error)

-- The two limits that `runSingle` checks last.
abbrev pub limited_status : ExecCmd → RunnerResult → ℤ → ℤ
limited_status c rt status =
    if ltb c.memory_limit rt.memory
    then status_memory_limit_exceeded
    else if ltb_ℤ c.time_limit rt.time
    then status_time_limit_exceeded
    else status

-- The end of `runSingle`, from the process on.
unfoldable pub run_single_ended : ExecCmd → RunnerResult → Collected → ExecResult
run_single_ended c rt collected =
    let status = collected_status rt collected in
    record {
      status = limited_status c rt status.0;
      exit_status = rt.exit_status;
      error = status.1;
      time = rt.time;
      run_time = rt.running_time;
      memory = rt.memory;
      proc_peak = rt.proc_peak;
      files = collected.files;
      file_error = collected.file_errors;
    }

-- The files to copy out with what `Open` answers for each, from one on.
abbrev pub opened_from :
    (ℕ → Result Bytes Opened) → ℕ → List CopyOutFile → List (CopyOutFile × Result Bytes Opened)
opened_from opens i [] = []
opened_from opens i (f ∷ fs) = (f, opens i) ∷ opened_from opens (i + 1) fs

abbrev pub opened_files : ExecCmd → Answers → List (CopyOutFile × Result Bytes Opened)
opened_files c a = opened_from a.opened 0 c.copy_out

-- `runSingle` from the end of `symlink` on, from the end of `runSingleCopyIn` on, and whole.
unfoldable pub run_single_linked : ExecCmd → Answers → List FileError × Option Bytes → ExecResult
run_single_linked c a (fe, some e) = result_file_error e fe
run_single_linked c a (fe, none) = run_single_ended c (run_single_wait a) (
    copy_out_and_collect c.copy_out_max c.copy_out_truncate a.copy_out_batch (opened_files c a)
      a.collectors)

unfoldable pub run_single_copied : ExecCmd → Answers → List FileError × Option Bytes → ExecResult
run_single_copied c a (fe, some e) = result_file_error e fe
run_single_copied c a (fe, none) =
    run_single_linked c a (symlink a.symlink_batch a.symlink_text a.links)

unfoldable pub run_single : ExecCmd → Answers → ExecResult
run_single c a = run_single_copied c a (run_single_copy_in a.copy_in_batch a.copy_in_files)

-- `Single.Run` and `Group.Run`, over the preparation of the files and the text of its error. The error
-- that `runSingle` returns is nil in each branch; `none` is a panic.
unfoldable pub single_run : Option Bytes → ExecCmd → Answers → Result Bytes ExecResult
single_run (some e) c a = err e
single_run none c a = ok (run_single c a)

unfoldable pub group_run :
    Result Fault (List (List Bool))
    → Bytes
    → List (ExecCmd × Answers)
    → Option (Result Bytes (List ExecResult))
group_run (err panicked) e cs = none
group_run (err failed) e cs = some (err e)
group_run (ok files) e cs = some (ok (map (λ (c : ExecCmd × Answers). run_single c.0 c.1) cs))
