-- ===== src/Worker/Command/Execution.antt =====
-- worker/worker.go: `workDoCmd`, `workDoSingle` and `workDoGroup`, with the pool of environments.
pub mod Returning
mod Lengths
pub mod Answering
use go_judge.Prelude.{
  ℕ, zero, suc, ◌+◌, Bytes, codes, Bool, true, false, Option, none, some, List, [], ◌∷◌, ◌++◌, map,
  length, ◌==◌, if◌then◌else◌,
}
use mathlib.Core.List.{reverse}
use go_judge.Prelude.Int.{ℤ, pos}
use go_judge.Prelude.Dict.{Dict}
use go_judge.Prelude.Result.{Result, ok, err}
use go_judge.EnvPool.{EnvPool, get_env, put_env}
use go_judge.Envexec.Results.{
  CopyOutFile, ExecResult, status_time_limit_exceeded, status_file_error, status_signalled,
  status_internal_error,
}
use go_judge.Envexec.Descriptors.{Fault, CmdOpening, prepare_fds}
use go_judge.Envexec.Commands.{PipeMap, File, file_collector, ExecCmd}
use go_judge.Worker.Command.{Cmd, Config, CmdResult, Response}
use go_judge.Envexec.Run.{Answers, single_run, group_run}
use go_judge.Worker.Command.Prepare.{prepare_cmd, prepare_pipe_names}
use go_judge.Worker.Command.Conversion.{convert_result}

-- What the worker is built with. `get` and `adds` are those of the file store and `add_error` is its
-- error; `builds` is whether the builder of environments succeeds if so many are still to get, and
-- `env_error` its error; `resets` is whether an environment can be reset. `prepare_error`
-- is the error of the preparation of the files of one command; that of a group has `max_places`, the
-- answers `cmd_opens` and `pipe_opens` and the text `prepare_group_error` of its error. `observes` is
-- what the environment answers in the run of a command.
pub record Services : Type 0 where
  pub config : Config
  pub get : Bytes → Option File
  pub adds : Bytes → ℕ → Option Bytes
  pub add_error : Bytes
  pub builds : ℕ → Bool
  pub env_error : Bytes
  pub resets : ℕ → Bool
  pub prepare_error : ExecCmd → ℕ → Option Bytes
  pub max_places : ℕ
  pub cmd_opens : List (ExecCmd × ℕ) → ℕ → CmdOpening
  pub pipe_opens : PipeMap → Bool
  pub prepare_group_error : List (ExecCmd × ℕ) → List PipeMap → Bytes
  pub observes : ExecCmd → ℕ → Answers

pub record Request : Type 0 where
  pub request_id : Bytes
  pub cmd : List Cmd
  pub pipe_mapping : List PipeMap

abbrev pub failed_response : Bytes → Response
failed_response e = record { request_id = []; results = []; error = some e }

-- The result of a command that gets no environment.
abbrev pub no_environment : Bytes → CmdResult
no_environment e = record {
  status = status_internal_error;
  exit_status = pos 0;
  error = codes "failed to get environment " ++ e;
  time = pos 0;
  run_time = pos 0;
  memory = 0;
  proc_peak = 0;
  files = [];
  file_ids = [];
  file_error = [];
}

-- `workDoSingle` from `Get` on, and from the preparation on.
unfoldable pub single_got : Services → Cmd → ExecCmd → EnvPool × Option ℕ → EnvPool × Response
single_got w rc c (p, none) =
    (p, record { request_id = []; results = no_environment w.env_error ∷ []; error = none })
single_got w rc c (p, some env) = (
  put_env (w.resets env) env p,
  elim (single_run (w.prepare_error c env) c (w.observes c env)) [
    | err e ↦ failed_response e
    | ok result ↦ record {
      request_id = [];
      results = (convert_result w.adds w.add_error result rc).0 ∷ [];
      error = none;
    }
  ],
)

unfoldable pub single_prepared :
    Services → Cmd → EnvPool → Result Bytes ExecCmd → EnvPool × Response
single_prepared w rc p (err e) = (p, failed_response e)
single_prepared w rc p (ok c) = single_got w rc c (get_env (w.builds 0) p)

unfoldable pub work_do_single : Services → Cmd → Bytes → EnvPool → EnvPool × Response
work_do_single w rc cpuset p = single_prepared w rc p (prepare_cmd w.config w.get rc [] cpuset)

-- The first loop over the commands of a group.
unfoldable pub prepare_all :
    Services → List Cmd → List (Dict (Unit {0})) → Bytes → Result Bytes (List ExecCmd)
prepare_all w [] names cpuset = ok []
prepare_all w (rc ∷ rest) [] cpuset = ok []
prepare_all w (rc ∷ rest) (n ∷ names) cpuset = elim (prepare_cmd w.config w.get rc n cpuset) [
  | err e ↦ err e
  | ok c ↦ elim (prepare_all w rest names cpuset) [ err e ↦ err e | ok cs ↦ ok (c ∷ cs) ]
]

-- The second loop, with the commands that have their environments, the last one first, and whether
-- all have them.
unfoldable pub get_envs :
    (ℕ → Bool) → List ExecCmd → List (ExecCmd × ℕ) → EnvPool → EnvPool × List (ExecCmd × ℕ) × Bool
get_envs builds [] held p = (p, held, true)
get_envs builds (c ∷ cs) held p =
    let got = get_env (builds (length cs)) p in
    elim got.1 [ none ↦ (got.0, held, false) | some e ↦ get_envs builds cs ((c, e) ∷ held) got.0 ]

-- The deferred calls of `Put`, the last one first.
unfoldable pub put_envs : (ℕ → Bool) → List (ExecCmd × ℕ) → EnvPool → EnvPool
put_envs resets [] p = p
put_envs resets ((c, e) ∷ held) p = put_envs resets held (put_env (resets e) e p)

-- The loop over the results; an index of `rc` beyond its end would panic.
unfoldable pub convert_results : Services → List ExecResult → List Cmd → List CmdResult
convert_results w [] rc = []
convert_results w (r ∷ rest) [] = []
convert_results w (r ∷ rest) (c ∷ rc) =
    (convert_result w.adds w.add_error r c).0 ∷ convert_results w rest rc

-- The answer of a group, by whether it has its environments and by the run; `none` is a panic.
unfoldable pub group_answer :
    Services
    → List Cmd
    → List ExecCmd
    → Bool
    → Option (Result Bytes (List ExecResult))
    → Option Response
group_answer w rc cs false run = some (record {
  request_id = [];
  results = map (λ (c : ExecCmd). no_environment w.env_error) cs;
  error = none;
})
group_answer w rc cs true none = none
group_answer w rc cs true (some (err e)) = some (failed_response e)
group_answer w rc cs true (some (ok results)) =
    some (record { request_id = []; results = convert_results w results rc; error = none })

-- The commands of a group with what their environments answer.
abbrev pub observed : Services → List (ExecCmd × ℕ) → List (ExecCmd × Answers)
observed w held = map (λ (c : ExecCmd × ℕ). (c.0, w.observes c.0 c.1)) held

-- `prepareFds` for the commands of a group: which of their descriptors have files, and the pipes.
abbrev is_given : Option File → Bool
is_given none = false
is_given (some f) = true

abbrev given_files : List (ExecCmd × ℕ) → List (List Bool)
given_files held = map (λ (c : ExecCmd × ℕ). map is_given c.0.files) held

unfoldable pub prepare_group :
    Services → List (ExecCmd × ℕ) → List PipeMap → Result Fault (List (List Bool))
prepare_group w held pipes =
    prepare_fds w.max_places (w.cmd_opens held) w.pipe_opens (given_files held) pipes

-- `workDoGroup` from the preparation on, and whole. A panic comes after the deferred calls.
unfoldable pub group_prepared :
    Services
    → List Cmd
    → List PipeMap
    → EnvPool
    → Result Bytes (List ExecCmd)
    → EnvPool × Option Response
group_prepared w rc pipes p (err e) = (p, some (failed_response e))
group_prepared w rc pipes p (ok cs) =
    let got = get_envs w.builds cs [] p in
    let held = reverse got.1 in
    (
      put_envs w.resets got.1 got.0,
      group_answer w rc cs got.2 (
          group_run (prepare_group w held pipes) (w.prepare_group_error held pipes)
            (observed w held)),
    )

unfoldable pub work_do_group :
    Services → List Cmd → List PipeMap → Bytes → EnvPool → EnvPool × Option Response
work_do_group w rc pm cpuset p =
    group_prepared w rc (map (λ (m : PipeMap). record m { cpuset = cpuset }) pm) p
      (prepare_all w rc (prepare_pipe_names pm (length rc)) cpuset)

-- The choice of `workDoCmd`, and `workDoCmd` but for the counter.
unfoldable pub work_do_any :
    Services → List Cmd → List PipeMap → Bytes → EnvPool → EnvPool × Option Response
work_do_any w (rc ∷ []) pm cpuset p =
    let done = work_do_single w rc cpuset p in (done.0, some done.1)
work_do_any w [] pm cpuset p = work_do_group w [] pm cpuset p
work_do_any w (rc ∷ rc' ∷ rest) pm cpuset p = work_do_group w (rc ∷ rc' ∷ rest) pm cpuset p

abbrev pub with_id : Bytes → Option Response → Option Response
with_id id none = none
with_id id (some r) = some (record r { request_id = id })

unfoldable pub work_do_cmd : Services → Request → Bytes → EnvPool → EnvPool × Option Response
work_do_cmd w req cpuset p =
    let done = work_do_any w req.cmd req.pipe_mapping cpuset p in
    (done.0, with_id req.request_id done.1)
