-- ===== src/Runner/Compile.antt =====
-- internal/hnieoj/runner/runner.go: the languages, the limits and `CompileProgram` from the answers of
-- the sandbox on.
pub mod Artifacts
use go_judge.Prelude.{
  Bytes, ℕ, bytes_eq, codes, is_empty, Bool, true, false, not, ◌||◌, Option, none, some, List, [],
  ◌∷◌, ◌++◌, ◌==◌, ◌*◌, if◌then◌else◌,
}
use go_judge.Prelude.Int.{ℤ, pos, ltb_ℤ}
use go_judge.Prelude.Ascii.{trim_space, to_lower}
use go_judge.Prelude.Dict.{lookup}
use go_judge.Prelude.Result.{Result, ok, err}
use go_judge.Model.{Task, Program, accepted, compile_error, system_error}
use go_judge.Processor.{CompileResult}
use go_judge.Runner.{SandboxResult, file_of, stderr_file}

pub record LanguageSpec : Type 0 where
  pub source_name : Bytes
  pub artifact : Bytes
  pub compile_args : List Bytes
  pub run_args : List Bytes
  pub compile_env : List Bytes
  pub run_env : List Bytes
  pub interpreted : Bool

-- `defaultEnv`.
abbrev pub default_env : List Bytes
default_env =
    codes "PATH=/usr/local/sbin:/usr/local/bin:/usr/sbin:/usr/bin:/sbin:/bin"
    ∷ (codes "LANG=C.UTF-8" ∷ (codes "HOME=/tmp" ∷ []))

abbrev pub cpp_spec : LanguageSpec
cpp_spec = record {
  source_name = codes "main.cpp";
  artifact = codes "main";
  compile_args =
      codes "/usr/bin/g++"
      ∷ (codes "-O2"
          ∷ (codes "-std=c++17"
              ∷ (codes "main.cpp" ∷ (codes "-o" ∷ (codes "main" ∷ (codes "-lm" ∷ []))))));
  run_args = codes "./main" ∷ [];
  compile_env = default_env;
  run_env = default_env;
  interpreted = false;
}

abbrev pub c_spec : LanguageSpec
c_spec = record {
  source_name = codes "main.c";
  artifact = codes "main";
  compile_args =
      codes "/usr/bin/gcc"
      ∷ (codes "-O2"
          ∷ (codes "-std=c11"
              ∷ (codes "main.c" ∷ (codes "-o" ∷ (codes "main" ∷ (codes "-lm" ∷ []))))));
  run_args = codes "./main" ∷ [];
  compile_env = default_env;
  run_env = default_env;
  interpreted = false;
}

abbrev pub java_spec : LanguageSpec
java_spec = record {
  source_name = codes "Main.java";
  artifact = codes "Main.jar";
  compile_args =
      codes "/bin/sh" ∷ (codes "-c" ∷ (codes "javac Main.java && jar cf Main.jar *.class" ∷ []));
  run_args = codes "/usr/bin/java" ∷ (codes "-cp" ∷ (codes "Main.jar" ∷ (codes "Main" ∷ [])));
  compile_env = default_env;
  run_env = default_env;
  interpreted = false;
}

abbrev pub python_spec : LanguageSpec
python_spec = record {
  source_name = codes "main.py";
  artifact = [];
  compile_args = [];
  run_args = codes "/usr/bin/python3" ∷ (codes "main.py" ∷ []);
  compile_env = [];
  run_env = default_env;
  interpreted = true;
}

-- `specFor`.
unfoldable pub spec_for : Bytes → Result Bytes LanguageSpec
spec_for language =
    let l = to_lower language in
    if bytes_eq l (codes "cpp")
      || (bytes_eq l (codes "cpp17") || (bytes_eq l (codes "c++") || bytes_eq l (codes "c++17")))
    then ok cpp_spec
    else if bytes_eq l (codes "c") || bytes_eq l (codes "c11")
    then ok c_spec
    else if bytes_eq l (codes "java") || bytes_eq l (codes "java17")
    then ok java_spec
    else if bytes_eq l (codes "python") || (bytes_eq l (codes "python3") || bytes_eq l (codes "py"))
    then ok python_spec
    else err (codes "unsupported language \"" ++ (language ++ codes "\""))

pub record ProgramLimits : Type 0 where
  pub time_ms : ℤ
  pub memory_mb : ℤ
  pub stack_mb : ℤ
  pub output_bytes : ℤ
  pub proc_limit : ℕ

-- `programLimitsFromTask`.
unfoldable pub program_limits_from_task : Task → ProgramLimits
program_limits_from_task task = record {
  time_ms = task.time_limit;
  memory_mb = task.memory_limit;
  stack_mb = task.stack_limit;
  output_bytes = pos 16777216;
  proc_limit = 128;
}

-- `programLimitsFromProgram`.
unfoldable pub program_limits_from_program : Program → ProgramLimits
program_limits_from_program program = record {
  time_ms = program.time_limit;
  memory_mb = program.memory_limit;
  stack_mb = program.stack_limit;
  output_bytes = program.output_limit;
  proc_limit = 128;
}

-- `limitOrDefault`.
unfoldable pub limit_or_default : ℤ → ℤ → ℤ
limit_or_default value fallback = if ltb_ℤ (pos 0) value then value else fallback

-- `limitProc`.
unfoldable pub limit_proc : ℕ → ℕ
limit_proc value = if value == 0 then 128 else value

abbrev compiled : ℤ → Bytes → Bytes → CompileResult
compiled status artifact message = record {
  artifact_file_id = artifact;
  status = status;
  message = message;
}

-- `CompileProgram` for the answers of the sandbox, where `none` is an error.
unfoldable pub compile_answer : LanguageSpec → Option (List SandboxResult) → Option CompileResult
compile_answer spec (some (r ∷ [])) =
    let message = trim_space (file_of stderr_file r) in
    let artifact : Bytes = elim (lookup spec.artifact r.file_ids) [ none ↦ [] | some id ↦ id ] in
    if not (bytes_eq r.status (codes "Accepted"))
    then some (compiled compile_error [] (if is_empty message then r.status else message))
    else if is_empty artifact
    then some (compiled system_error [] (codes "compile artifact missing"))
    else some (compiled accepted artifact [])
compile_answer spec _ = none

unfoldable pub compile_program : Bytes → Bytes → Option (List SandboxResult) → Option CompileResult
unfolding compile_answer
compile_program language source answers = elim (spec_for language) [
  | err e ↦ some (compiled system_error [] e)
  | ok spec ↦
      if spec.interpreted
      then some (compiled accepted [] [])
      else if is_empty (trim_space source)
      then some (compiled system_error [] (codes "program source is required"))
      else compile_answer spec answers
]
