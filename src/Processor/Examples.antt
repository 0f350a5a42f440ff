-- ===== src/Processor/Examples.antt =====
-- internal/hnieoj/processor/processor.go at concrete inputs.
use go_judge.Prelude.{
  ◌≡◌, refl, true, false, none, some, List, [], ◌∷◌, map, codes, arith, bytes_eq, ◌==◌,
  if◌then◌else◌,
}
use go_judge.Prelude.Int.{◌+ℤ◌, pos, ◌≤ℤ◌}
use go_judge.Prelude.Ascii.{trim_space, to_lower}
use go_judge.Prelude.Dict.{has, insert}
use go_judge.Model.{
  compiling, running, new_event, Task, Case, accepted, wrong_answer, problem_type_acm,
  problem_type_oi, mode_spj,
}
use go_judge.Processor.{
  judge, supports, normalize_mode, judge_ensured, compile_and_judge, compiling_with, deferring,
  judge_with_mode, with_program, judge_loop, report, case_event, run_case, finished_event,
  failed_event, World, Processor, RunResult, ensured, process, judge_cases, final_score,
  final_status, supported_mode_set, no_trace,
}
use go_judge.Processor.Score.{
  case_score, case_max_score, plain_score, clamp, max_scores, max_scores_total, case_score_bounds,
}
use go_judge.Processor.Terminal.{process-terminal}
use go_judge.Processor.Reports.{Ends}
use go_judge.Processor.Verdict.{tally, zero_score-accepted}
use mathlib.Core.List.{reverse}
use go_judge.Prelude.Result.{ok}
use go_judge.Processor.Cleanup.{process_cleanup}
use go_judge.Prelude.Result.{ok}
use go_judge.Processor.Reported.{IsReported, judge_cases-IsReported}

abbrev task : Task
task = record {
  submission_id = codes "s";
  judge_task_id = codes "j";
  judge_id = pos 1;
  problem_id = pos 2;
  problem_code = codes "P2";
  language = codes "C++";
  code = codes "main";
  time_limit = pos 1000;
  memory_limit = pos 256;
  stack_limit = pos 128;
  judge_mode = codes " SPJ ";
  checker = some (record {
    language = codes "C++";
    source = codes "check";
    artifact_file_id = [];
    time_limit = pos 0;
    memory_limit = pos 0;
    stack_limit = pos 0;
    output_limit = pos 0;
    protocol = [];
    argument_template = [];
  });
  interactor = none;
  interaction = none;
  problem_type = problem_type_acm;
  io_score = pos 100;
  is_remove_end_blank = false;
  data_version = pos 1;
  contest_id = pos 0;
  created_at = pos 0;
  attempt_id = codes "a";
}

abbrev oi_task : Task
oi_task = record task { problem_type = problem_type_oi; io_score = pos 0 }

abbrev first_case : Case
first_case = record { id = codes "1"; input = codes "in"; expected = codes "out" }

abbrev cases : List Case
cases =
    first_case ∷ record first_case { id = codes "2" } ∷ (record first_case { id = codes "3" } ∷ [])

abbrev right : RunResult
right = record {
  status = accepted;
  time_ms = pos 5;
  memory_kb = pos 6;
  user_output = codes "out";
  message = [];
  diagnostic_message = [];
  score = none;
}

abbrev wrong : RunResult
wrong = record right { status = wrong_answer }

abbrev partial_score : RunResult
partial_score = record right { status = wrong_answer; score = some (pos 20) }

-- Everything works, and the second case of a task with a checker is wrong.
abbrev world : World
world = record {
  revoked = false;
  expired = false;
  clock = λ n. pos n;
  delivers = λ n e. true;
  ensures = ensured cases;
  compiles = λ t. some (record { artifact_file_id = codes "u"; status = accepted; message = [] });
  compiles_program = λ id language source.
      some (record { artifact_file_id = codes "c"; status = accepted; message = [] });
  runs = λ i t c user. some right;
  runs_spj = λ i t c user checker. some (if i == 1 then partial_score else right);
  runs_interactive = λ i t c user interactor. none;
}

abbrev idle : Processor
idle = record {
  supported_modes = supported_mode_set (codes "default" ∷ codes "spj" ∷ []);
  in_flight = [];
}

process-terminal_example : let (_, t, r) = process world task idle in Ends 0 (t, r)
unfolding has
process-terminal_example = process-terminal world task idle refl refl refl refl refl

max_scores_total_example : max_scores task 3 3 ≡ 100
max_scores_total_example = max_scores_total task 3 100 refl (omega arith) (omega arith)

case_score_bounds_example :
    (pos 0 ≤ℤ case_score task 3 0 wrong_answer (some (pos 50)))
    × (case_score task 3 0 wrong_answer (some (pos 50)) ≤ℤ pos (case_max_score task 3 0))
case_score_bounds_example = case_score_bounds task 3 0 wrong_answer (some (pos 50))

zero_score-accepted_example :
    let (final, score) = tally oi_task 2 0 (wrong ∷ (wrong ∷ [])) (accepted, pos 0) in
    final_status oi_task final score ≡ accepted
zero_score-accepted_example = zero_score-accepted oi_task (wrong ∷ (wrong ∷ [])) refl refl

judge_cases-IsReported_example :
    IsReported world mode_spj task cases
      (codes "u")
      (codes "c")
      []
      (judge_cases world mode_spj task cases (codes "u") (codes "c") [] no_trace)
judge_cases-IsReported_example =
    judge_cases-IsReported world mode_spj task cases (codes "u") (codes "c") [] no_trace

process_cleanup_example : let (_, t, _) = process world task idle in t.deleted ≡ reverse t.made
process_cleanup_example = process_cleanup world task idle

-- The run reports the two status events, the three cases and the verdict `Wrong Answer`, and deletes
-- the artifact of the checker, then that of the program.
wrong_run :
    let (p, t, r) = process world task idle in
    (r ≡ ok tt)
    × (map (λ s. s.0.status) t.sent
        ≡ compiling ∷ (running ∷ (running ∷ (running ∷ (running ∷ (wrong_answer ∷ []))))))
    × (map (λ s. s.0.score) t.sent ≡ pos 0 ∷ (pos 0 ∷ (pos 0 ∷ (pos 0 ∷ (pos 0 ∷ (pos 87 ∷ []))))))
    × (t.deleted ≡ codes "c" ∷ (codes "u" ∷ []))
unfolding process judge supports supported_mode_set normalize_mode insert has judge_ensured
    compile_and_judge compiling_with deferring judge_with_mode with_program judge_cases judge_loop
    report case_event new_event run_case finished_event final_status final_score case_score
    case_max_score plain_score clamp ◌+ℤ◌ trim_space to_lower failed_event bytes_eq
wrong_run = (refl, refl, refl, refl)
