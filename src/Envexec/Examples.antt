-- ===== src/Envexec/Examples.antt =====
-- envexec at concrete inputs.
use go_judge.Prelude.{Bool, List, ◌≡◌, ◌↔◌, refl, true, false, some, none, [], ◌∷◌, codes, arith}
use go_judge.Prelude.Int.{pos, negsuc}
use go_judge.Prelude.Dict.{insert}
use go_judge.Prelude.Result.{ok, err}
use go_judge.Envexec.Results.{status_accepted}
use go_judge.Envexec.Descriptors.{opened, prepare_fds, pipe_ends, panicked}
use go_judge.Envexec.Descriptors.Counting.{any_negative, spare, negative}
use go_judge.Envexec.Descriptors.Panics.{prepare_fds-panics_iff}
use go_judge.Envexec.Commands.{PipeMap, ExecCmd}
use go_judge.Envexec.CopyIn.{run_single_copy_in, symlink}
use go_judge.Envexec.Collect.{
  copy_out_and_collect, copy_out_opened, copy_out_file_stream, stream_checked, stream_stored,
  stream_read, add_streamed, collect_pipes,
}
use go_judge.Envexec.Run.{
  Answers, runner_normal, convert_status, run_single, run_single_copied, run_single_linked,
  run_single_ended, run_single_wait, collected_status, with_collect_error,
}
use go_judge.Envexec.Run.Stored.{AllStored, run_single-accepted-AllStored}
use go_judge.Envexec.Run.Accepted.{Accepts, run_single-accepted_iff}
use go_judge.Envexec.Run.Unopened.{no_file, uncreated, run_single_unopened}
use go_judge.Envexec.{status_string, string_to_status}
use go_judge.Envexec.Names.{string_to_status-status_string}

string_to_status-status_string_example : string_to_status (status_string (pos 5)) ≡ some (pos 5)
string_to_status-status_string_example = string_to_status-status_string 5 (omega arith)

abbrev command : ExecCmd
command = record {
  args = codes "/a" ∷ [];
  env = [];
  files = [];
  tty = false;
  time_limit = pos 1000;
  memory_limit = 64;
  stack_limit = 8;
  extra_memory_limit = 0;
  output_limit = 0;
  proc_limit = 1;
  open_file_limit = 0;
  cpu_rate_limit = 0;
  cpuset_limit = [];
  data_segment_limit = false;
  address_space_limit = false;
  copy_in = [];
  symlinks = [];
  copy_out = record { name = codes "out"; optional = false } ∷ [];
  copy_out_max = 100;
  copy_out_truncate = false;
  wait_tick = pos 0;
  wait_cpu = pos 1000;
  wait_clock = pos 2000;
}

-- The process ends normally, and the file is there.
abbrev answers : Answers
answers = record {
  copy_in_batch = none;
  copy_in_files = [];
  symlink_batch = none;
  symlink_text = [];
  links = [];
  execve = none;
  process = record {
    status = runner_normal;
    exit_status = pos 0;
    error = [];
    time = pos 1;
    running_time = pos 1;
    memory = 1;
    proc_peak = 1;
  };
  copy_out_batch = none;
  opened = λ i. ok (record {
    stat_error = none;
    is_regular = true;
    size = 5;
    create_error = none;
    read = ok 5;
    buffer = 9;
    text = [];
  });
  collectors = [];
}

-- A source file cannot be created in the environment.
abbrev answers_unopened : Answers
answers_unopened = record answers {
  copy_in_files =
      record {
        name = codes "a.c";
        open_error = some (codes "EACCES");
        source_error = none;
        copy_error = none;
      }
      ∷ [];
}

run_single-accepted_iff_example :
    ((run_single command answers).status ≡ status_accepted) ↔ Accepts command answers
run_single-accepted_iff_example = run_single-accepted_iff command answers

run_single_unopened_example : run_single command answers_unopened ≡ run_single command answers
run_single_unopened_example =
    run_single_unopened command answers_unopened refl (uncreated (codes "EACCES") refl no_file)

answers_accepted : (run_single command answers).status ≡ status_accepted
unfolding run_single run_single_copied run_single_linked run_single_ended run_single_wait
    collected_status with_collect_error run_single_copy_in symlink copy_out_and_collect
    copy_out_opened copy_out_file_stream stream_checked stream_stored stream_read add_streamed
    collect_pipes convert_status insert
answers_accepted = refl

run_single-accepted-AllStored_example :
    AllStored command.copy_out (run_single command answers).files
unfolding run_single_wait
run_single-accepted-AllStored_example =
    run_single-accepted-AllStored command answers answers_accepted refl

-- A pipe from the output of the first command to descriptor -1 of the second one.
abbrev negative_pipe : PipeMap
negative_pipe = record {
  in_end = record { index = pos 0; fd = pos 1 };
  out_end = record { index = pos 1; fd = negsuc 0 };
  cpuset = [];
  name = [];
  limit = 0;
  proxy = false;
  disable_zero_copy = false;
}

abbrev two_commands : List (List Bool)
two_commands = (true ∷ (false ∷ [])) ∷ ((true ∷ []) ∷ [])

prepare_fds-panics_iff_example :
    (prepare_fds 100 (λ i. opened) (λ p. true) two_commands (negative_pipe ∷ []) ≡ err panicked)
    ↔ (any_negative (pipe_ends (negative_pipe ∷ [])) ≡ true)
prepare_fds-panics_iff_example =
    prepare_fds-panics_iff 100 (λ i. opened) (λ p. true) two_commands (negative_pipe ∷ [])
      (omega arith) (omega arith, (omega arith, tt))
      (
        spare 0 1 refl (omega arith) refl (omega arith) refl,
        (negative 1 0 refl (omega arith) refl, tt),
      )
