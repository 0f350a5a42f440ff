-- ===== src/Model.antt =====
-- internal/hnieoj/model/model.go: tasks, cases, their results and the events about them.
use go_judge.Prelude.{ℕ, Bytes, codes, Bool, Option, if◌then◌else◌}
use go_judge.Prelude.Int.{ℤ, pos, negsuc, eq_ℤ}

abbrev pub pending : ℤ
pending = negsuc 9

abbrev pub compiling : ℤ
compiling = negsuc 8

abbrev pub running : ℤ
running = negsuc 7

abbrev pub accepted : ℤ
accepted = pos 0

abbrev pub runtime_error : ℤ
runtime_error = pos 1

abbrev pub compile_error : ℤ
compile_error = pos 2

abbrev pub wrong_answer : ℤ
wrong_answer = pos 3

abbrev pub time_limit_exceeded : ℤ
time_limit_exceeded = pos 4

abbrev pub memory_limit_exceeded : ℤ
memory_limit_exceeded = pos 5

abbrev pub system_error : ℤ
system_error = pos 6

abbrev pub judgement_failed : ℤ
judgement_failed = pos 7

abbrev pub invalid_interaction : ℤ
invalid_interaction = pos 8

pub data EventType : Type 0 where
  submission_created status_changed case_finished judge_finished judge_failed : EventType

abbrev pub problem_type_acm : ℤ
problem_type_acm = pos 0

abbrev pub problem_type_oi : ℤ
problem_type_oi = pos 1

abbrev pub mode_default : Bytes
mode_default = codes "default"

abbrev pub mode_spj : Bytes
mode_spj = codes "spj"

abbrev pub mode_interactive : Bytes
mode_interactive = codes "interactive"

pub record Program : Type 0 where
  pub language : Bytes
  pub source : Bytes
  pub artifact_file_id : Bytes
  pub time_limit : ℤ
  pub memory_limit : ℤ
  pub stack_limit : ℤ
  pub output_limit : ℤ
  pub protocol : Bytes
  pub argument_template : Bytes

pub record InteractionConfig : Type 0 where
  pub protocol : Bytes
  pub wiring : Bytes
  pub score_mode : Bytes

pub record Task : Type 0 where
  pub submission_id : Bytes
  pub judge_task_id : Bytes
  pub judge_id : ℤ
  pub problem_id : ℤ
  pub problem_code : Bytes
  pub language : Bytes
  pub code : Bytes
  pub time_limit : ℤ
  pub memory_limit : ℤ
  pub stack_limit : ℤ
  pub judge_mode : Bytes
  pub checker : Option Program
  pub interactor : Option Program
  pub interaction : Option InteractionConfig
  pub problem_type : ℤ
  pub io_score : ℤ
  pub is_remove_end_blank : Bool
  pub data_version : ℤ
  pub contest_id : ℤ
  pub created_at : ℤ
  pub attempt_id : Bytes

pub record Case : Type 0 where
  pub id : Bytes
  pub input : Bytes
  pub expected : Bytes

pub record CaseResult : Type 0 where
  pub case_id : Bytes
  pub status : ℤ
  pub status_text : Bytes
  pub time : ℤ
  pub memory : ℤ
  pub score : ℤ
  pub user_output : Bytes
  pub diagnostic_message : Bytes

pub record Event : Type 0 where
  pub event_type : EventType
  pub submission_id : Bytes
  pub judge_task_id : Bytes
  pub attempt_id : Bytes
  pub status : ℤ
  pub status_text : Bytes
  pub total_case : ℕ
  pub judged_case : ℕ
  pub current_case : ℕ
  pub score : ℤ
  pub case_result : Option CaseResult
  pub message : Bytes
  pub diagnostic_message : Bytes
  pub event_time : ℤ

-- `StatusText`.
unfoldable pub status_text : ℤ → Bytes
status_text s =
    if eq_ℤ s pending
    then codes "Pending"
    else if eq_ℤ s compiling
    then codes "Compiling"
    else if eq_ℤ s running
    then codes "Running"
    else if eq_ℤ s accepted
    then codes "Accepted"
    else if eq_ℤ s runtime_error
    then codes "Runtime Error"
    else if eq_ℤ s compile_error
    then codes "Compile Error"
    else if eq_ℤ s wrong_answer
    then codes "Wrong Answer"
    else if eq_ℤ s time_limit_exceeded
    then codes "Time Limit Exceeded"
    else if eq_ℤ s memory_limit_exceeded
    then codes "Memory Limit Exceeded"
    else if eq_ℤ s system_error
    then codes "System Error"
    else if eq_ℤ s judgement_failed
    then codes "Judgement Failed"
    else if eq_ℤ s invalid_interaction
    then codes "Invalid Interaction"
    else codes "Unknown"

-- `NewEvent`, where the clock answers `now`.
unfoldable pub new_event : ℤ → EventType → Task → ℤ → ℕ → ℕ → ℕ → Option CaseResult → Bytes → Event
new_event now event_type task status total judged current case_result message = record {
  event_type = event_type;
  submission_id = task.submission_id;
  judge_task_id = task.judge_task_id;
  attempt_id = task.attempt_id;
  status = status;
  status_text = status_text status;
  total_case = total;
  judged_case = judged;
  current_case = current;
  score = pos 0;
  case_result = case_result;
  message = message;
  diagnostic_message = codes "";
  event_time = now;
}
