-- ===== src/Runner/Examples.antt =====
-- internal/hnieoj/runner/runner.go at concrete inputs.
use go_judge.Prelude.{◌↔◌, ◌≡◌, refl, false, none, some, [], ◌∷◌, ◌++◌, codes, bytes_eq}
use go_judge.Prelude.Int.{pos}
use go_judge.Prelude.Dict.{lookup}
use go_judge.Prelude.Ascii.{trim_space, to_lower}
use go_judge.Model.{Case, accepted}
use go_judge.Processor.{RunResult, CompileResult}
use go_judge.Runner.Compile.{cpp_spec, spec_for, compile_answer, compile_program}
use go_judge.Runner.Compile.Artifacts.{Leaves, compile_program-artifact}
use go_judge.Runner.{
  SandboxResult, map_go_judge_status, replace_crlf, trim_right, normalize_output, same_output,
  run_user_case, compared, run_plain_case,
}
use go_judge.Runner.Accepting.{IsRight, run_plain_case-IsRight}

abbrev tc : Case
tc = record { id = codes "1"; input = []; expected = codes "7" ++ 10 ∷ [] }

abbrev answer : SandboxResult
answer = record {
  status = codes "Accepted";
  exit_status = pos 0;
  time = 2000000;
  memory = 4096;
  files = (codes "stdout", codes "7") ∷ [];
  file_ids = [];
}

abbrev result : RunResult
result = record {
  status = accepted;
  time_ms = pos 2;
  memory_kb = pos 4;
  user_output = codes "7";
  message = [];
  diagnostic_message = [];
  score = none;
}

run_plain_case-IsRight_example : (result.status ≡ accepted) ↔ IsRight tc false (some (answer ∷ []))
unfolding run_plain_case run_user_case compared map_go_judge_status bytes_eq lookup trim_space
    same_output normalize_output trim_right replace_crlf
run_plain_case-IsRight_example = run_plain_case-IsRight tc false (some (answer ∷ [])) result refl

abbrev built : SandboxResult
built = record answer { file_ids = (codes "main", codes "f") ∷ [] }

abbrev cpp_result : CompileResult
cpp_result = record { artifact_file_id = codes "f"; status = accepted; message = [] }

compile_program-artifact_example : Leaves (codes "int main") (some (built ∷ [])) cpp_result cpp_spec
unfolding compile_program spec_for compile_answer to_lower bytes_eq lookup trim_space
compile_program-artifact_example =
    compile_program-artifact (codes "C++17") (codes "int main") cpp_spec (some (built ∷ []))
      cpp_result refl refl

-- A C++ program that compiles has the artifact of the sandbox.
built_artifact :
    compile_program (codes "C++17") (codes "int main") (some (built ∷ [])) ≡ some cpp_result
unfolding compile_program spec_for compile_answer to_lower bytes_eq lookup trim_space
built_artifact = refl
