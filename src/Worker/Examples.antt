-- ===== src/Worker/Examples.antt =====
-- worker/worker.go at concrete inputs.
use go_judge.Prelude.Result.{err}
use go_judge.Prelude.{◌⊎◌, ◌<◌, ◌≡◌, ◌+◌, refl, bytes_eq, true, false, none, [], ◌∷◌, codes, arith}
use go_judge.Prelude.Int.{pos}
use go_judge.Prelude.Count.{count}
use go_judge.Prelude.Dict.{has, lookup}
use go_judge.EnvPool.{EnvPool}
use go_judge.EnvPool.Lending.{Lends}
use go_judge.Envexec.Results.{ExecResult}
use go_judge.Envexec.Run.{runner_normal}
use go_judge.Worker.Command.{Cmd}
use go_judge.Worker.Command.Conversion.{convert_result}
use go_judge.Worker.Command.Conversion.Closing.{holds, convert_result-conserves}
use go_judge.Worker.Command.Execution.{Services, Request, work_do_cmd}
use go_judge.Worker.Command.Execution.Returning.{work_do_cmd-Lends}
use go_judge.Worker.Command.Execution.Answering.{IsAnswered, work_do_cmd-IsAnswered}
use go_judge.Envexec.Descriptors.{opened}
use go_judge.Worker.Pool.{
  Pool, new_pool, start, submit, take_request, finish, shut, destroy, LoopStep, takes, finishes,
  leaves, LoopSteps, goes, rests, loops, starts, submits, shuts, destroys, Steps, here, then_step,
}
use go_judge.Worker.Pool.Sound.{IsSound, count_sent, new_pool-Steps-IsSound}
use go_judge.Worker.Pool.Progress.{work, LoopStep-work, IsServed, loops-IsServed}
use go_judge.Worker.Pool.Stranded.{submit-stranded}

-- A pool of one loop that is given a request, which it takes and executes.
abbrev open_pool : Pool
open_pool = start (new_pool 1)

abbrev waiting_pool : Pool
waiting_pool = submit false open_pool

abbrev busy_pool : Pool
busy_pool = take_request false 0 [] 0 waiting_pool

abbrev served_pool : Pool
served_pool = finish 0 [] [] busy_pool

waiting-Steps : Steps (new_pool 1) waiting_pool
unfolding start
waiting-Steps = then_step starts (then_step (submits false refl) here)

takes_one : LoopStep waiting_pool busy_pool
unfolding start submit
takes_one = takes false 0 [] 0 refl refl

finishes_one : LoopStep busy_pool served_pool
unfolding start submit take_request
finishes_one = finishes 0 [] [] refl

served-Steps : Steps (new_pool 1) served_pool
unfolding start
served-Steps = then_step starts (
    then_step (submits false refl)
      (then_step (loops takes_one) (then_step (loops finishes_one) here)))

new_pool-Steps-IsSound_example : IsSound served_pool
new_pool-Steps-IsSound_example = new_pool-Steps-IsSound 1 served_pool served-Steps

LoopStep-work_example : work busy_pool < work waiting_pool
LoopStep-work_example = LoopStep-work takes_one

loops-IsServed_example :
    (IsServed busy_pool ⊎ ((r : Pool) × LoopStep busy_pool r))
    × ((r : Pool) × LoopSteps busy_pool r × IsServed r)
unfolding start submit
loops-IsServed_example =
    loops-IsServed waiting_pool busy_pool (new_pool-Steps-IsSound 1 waiting_pool waiting-Steps)
      (refl, omega arith) (goes takes_one rests)

-- A pool that is shut down before a request comes.
abbrev shut_pool : Pool
shut_pool = record (shut open_pool) { idle = 0 }

shut-Steps : Steps (new_pool 1) shut_pool
unfolding start shut
shut-Steps = then_step starts (then_step shuts (then_step (loops (leaves 0 refl refl)) here))

abbrev closed_pool : Pool
closed_pool = destroy shut_pool

closed-Steps : Steps (new_pool 1) closed_pool
unfolding start shut
closed-Steps = then_step starts (
    then_step shuts
      (then_step (loops (leaves 0 refl refl)) (then_step (destroys refl refl refl refl) here)))

submit-stranded_example :
    (count_sent 0 (submit true closed_pool).sent ≡ 0) × (count 0 (submit true closed_pool).told ≡ 0)
unfolding start shut destroy
submit-stranded_example =
    submit-stranded closed_pool (submit true closed_pool)
      (new_pool-Steps-IsSound 1 closed_pool closed-Steps)
      (record { started = refl; stopping = refl; no_idle = refl; no_busy = refl }) (omega arith)
      here

abbrev command : Cmd
command = record {
  args = codes "/a" ∷ [];
  env = [];
  files = [];
  cpu_limit = pos 1000;
  clock_limit = pos 2000;
  memory_limit = 64;
  stack_limit = 8;
  output_limit = 0;
  proc_limit = 1;
  open_file_limit = 0;
  cpu_rate_limit = 0;
  cpuset_limit = [];
  copy_in = [];
  symlinks = [];
  copy_out = record { name = codes "out"; optional = false } ∷ [];
  copy_out_cached = record { name = codes "exe"; optional = false } ∷ [];
  copy_out_max = 0;
  copy_out_truncate = false;
  tty = false;
  data_segment_limit = false;
  address_space_limit = false;
}

-- Two files come out, of which the store does not take the one to be cached.
abbrev result : ExecResult
result = record {
  status = pos 1;
  exit_status = pos 0;
  error = [];
  time = pos 10;
  run_time = pos 20;
  memory = 30;
  proc_peak = 1;
  files = (codes "out", 7) ∷ ((codes "exe", 8) ∷ []);
  file_error = [];
}

convert_result-conserves_example :
    holds 8 (convert_result (λ name b. none) (codes "full") result command).0.files
      + count 8 (convert_result (λ name b. none) (codes "full") result command).1
    ≡ holds 8 result.files
unfolding has lookup bytes_eq
convert_result-conserves_example =
    convert_result-conserves (λ name b. none) (codes "full") result command 8 (refl, (refl, tt))

-- Two commands, of which the second one gets no environment.
abbrev services : Services
services = record {
  config = record {
    time_limit_tick_interval = pos 0;
    extra_memory_limit = 0;
    output_limit = 0;
    copy_out_limit = 0;
    open_file_limit = 0;
  };
  get = λ id. none;
  adds = λ name b. none;
  add_error = codes "full";
  builds = λ left. false;
  env_error = codes "no container";
  resets = λ e. true;
  prepare_error = λ c e. none;
  max_places = 100;
  cmd_opens = λ cs i. opened;
  pipe_opens = λ p. true;
  prepare_group_error = λ cs ps. [];
  observes = λ c e. record {
    copy_in_batch = none;
    copy_in_files = [];
    symlink_batch = none;
    symlink_text = [];
    links = [];
    execve = none;
    process = record {
      status = runner_normal;
      exit_status = pos 0;
      error = [];
      time = pos 1;
      running_time = pos 1;
      memory = 1;
      proc_peak = 1;
    };
    copy_out_batch = none;
    opened = λ i. err (codes "ENOENT");
    collectors = [];
  };
}

abbrev request : Request
request = record { request_id = codes "r"; cmd = command ∷ (command ∷ []); pipe_mapping = [] }

abbrev env_pool : EnvPool
env_pool = record { env = 0 ∷ []; destroyed = []; next = 1 }

work_do_cmd-Lends_example : Lends [] (work_do_cmd services request [] env_pool).0
work_do_cmd-Lends_example =
    work_do_cmd-Lends services request [] [] env_pool (record { placed = λ e. ground arith })

work_do_cmd-IsAnswered_example :
    IsAnswered services request [] (work_do_cmd services request [] env_pool).1
work_do_cmd-IsAnswered_example = work_do_cmd-IsAnswered services request [] env_pool
