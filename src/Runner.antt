-- ===== src/Runner.antt =====
-- internal/hnieoj/runner/runner.go: what the answers of the sandbox make of a case. The command that
-- is sent and the HTTP exchange are not modelled: what they give is an argument.
pub mod Outputs
pub mod Accepting
pub mod Compile
mod Examples
use go_judge.Prelude.{
  ℕ, zero, suc, ◌+◌, ◌/◌, ◌%◌, ◌^◌, Bytes, bytes_eq, codes, is_empty, Bool, true, false, not, ◌||◌,
  ◌&&◌, Option, none, some, List, [], ◌∷◌, ◌++◌, ◌==◌, max, if◌then◌else◌,
}
use go_judge.Prelude.Int.{ℤ, pos, leb_ℤ, eq_ℤ}
use go_judge.Prelude.Ascii.{trim_space, to_lower}
use go_judge.Prelude.Dict.{Dict, lookup}
use go_judge.Prelude.Result.{Result, ok, err}
use go_judge.Model.{
  Case, accepted, wrong_answer, memory_limit_exceeded, time_limit_exceeded, runtime_error,
  system_error, judgement_failed, invalid_interaction, status_text,
}
use go_judge.Processor.{RunResult}

-- `runResult`, one answer of the sandbox.
pub record SandboxResult : Type 0 where
  pub status : Bytes
  pub exit_status : ℤ
  pub time : ℕ
  pub memory : ℕ
  pub files : Dict Bytes
  pub file_ids : Dict Bytes

pub record ResultJson : Type 0 where
  pub status : Bytes
  pub score : Option ℤ
  pub message : Bytes
  pub diagnostic_message : Bytes

pub record ParsedResult : Type 0 where
  pub status : ℤ
  pub score : Option ℤ
  pub message : Bytes
  pub diagnostic_message : Bytes

-- `res.Files[name]`, empty if there is none.
abbrev pub file_of : Bytes → SandboxResult → Bytes
file_of name r = elim (lookup name r.files) [ none ↦ [] | some raw ↦ raw ]

-- `mapGoJudgeStatus`.
unfoldable pub map_go_judge_status : Bytes → ℤ
map_go_judge_status s =
    if bytes_eq s (codes "Accepted")
    then accepted
    else if bytes_eq s (codes "Wrong Answer") || bytes_eq s (codes "Partially Correct")
    then wrong_answer
    else if bytes_eq s (codes "Memory Limit Exceeded")
    then memory_limit_exceeded
    else if bytes_eq s (codes "Time Limit Exceeded")
    then time_limit_exceeded
    else if bytes_eq s (codes "Nonzero Exit Status")
        || (bytes_eq s (codes "Signalled")
            || (bytes_eq s (codes "Dangerous Syscall")
                || bytes_eq s (codes "Output Limit Exceeded")))
    then runtime_error
    else system_error

-- `strings.ReplaceAll(s, "\r\n", "\n")`.
unfoldable pub replace_crlf : Bytes → Bytes
replace_crlf [] = []
replace_crlf (b ∷ []) = b ∷ []
replace_crlf (b ∷ (c ∷ rest)) =
    let next = replace_crlf (c ∷ rest) in if b == 13 && c == 10 then next else b ∷ next

-- `strings.TrimRight`, for the bytes that a test holds of.
unfoldable pub trim_right : (ℕ → Bool) → Bytes → Bytes
trim_right cuts [] = []
trim_right cuts (b ∷ rest) =
    let next = trim_right cuts rest in if is_empty next && cuts b then [] else b ∷ next

-- `strings.Split(s, "\n")`.
unfoldable pub split_lines : Bytes → List Bytes
split_lines [] = [] ∷ []
split_lines (b ∷ rest) =
    let next = split_lines rest in
    if b == 10
    then [] ∷ next
    else elim next [ [] ↦ (b ∷ []) ∷ [] | line ∷ lines ↦ (b ∷ line) ∷ lines ]

-- `strings.Join(lines, "\n")`, with the blanks at the end of each line trimmed.
unfoldable pub join_trimmed : List Bytes → Bytes
unfolding trim_right
join_trimmed [] = []
join_trimmed (line ∷ []) = trim_right (λ b. b == 32 || b == 9) line
join_trimmed (line ∷ (next ∷ lines)) =
    trim_right (λ b. b == 32 || b == 9) line ++ (10 ∷ join_trimmed (next ∷ lines))

-- `normalizeOutput`.
unfoldable pub normalize_output : Bytes → Bool → Bytes
normalize_output s remove_end_blank =
    let t = trim_right (λ b. b == 10) (replace_crlf s) in
    if not remove_end_blank then t else join_trimmed (split_lines t)

-- `sameOutput`.
unfoldable pub same_output : Bytes → Bytes → Bool → Bool
same_output actual expected remove_end_blank =
    bytes_eq (normalize_output actual remove_end_blank) (normalize_output expected remove_end_blank)

-- `nsToMS`.
abbrev pub ns_to_ms : ℕ → ℤ
ns_to_ms ns = pos (ns / 1000000)

-- `bytesToKB`, whose sum is of 64 bits.
abbrev pub bytes_to_kb : ℕ → ℤ
bytes_to_kb b = pos ((b + 1023) % 2 ^ 64 / 1024)

-- `joinDiagnostic`, of two parts.
unfoldable pub join_diagnostic : Bytes → Bytes → Bytes
join_diagnostic first second =
    let a = trim_space first in
    let b = trim_space second in if is_empty a then b else if is_empty b then a else a ++ (10 ∷ b)

-- The cases of the status in `parseResultJSON`.
unfoldable pub parsed_status : Bytes → Option ℤ
parsed_status status =
    if bytes_eq status (codes "accepted")
    then some accepted
    else if bytes_eq status (codes "wrong_answer") || bytes_eq status (codes "partially_correct")
    then some wrong_answer
    else if bytes_eq status (codes "judgement_failed")
    then some judgement_failed
    else if bytes_eq status (codes "invalid_interaction")
    then some invalid_interaction
    else none

-- `parseResultJSON`, for what `json.Unmarshal` gives.
unfoldable pub parse_result_json : Result Bytes ResultJson → Result Bytes ParsedResult
parse_result_json (err e) = err e
parse_result_json (ok r) =
    let status = to_lower (trim_space r.status) in
    let message = trim_space r.message in
    if is_empty status then err (codes "status is required") else elim (parsed_status status) [
      | none ↦ err (codes "unsupported status \"" ++ (r.status ++ codes "\""))
      | some s ↦ ok (record {
        status = s;
        score = r.score;
        message =
            if not (is_empty message)
            then message
            else if bytes_eq status (codes "partially_correct")
            then codes "Partially Correct"
            else status_text s;
        diagnostic_message = trim_space r.diagnostic_message;
      })
    ]

abbrev pub stderr_file : Bytes
stderr_file = codes "stderr"

abbrev pub stdout_file : Bytes
stdout_file = codes "stdout"

abbrev pub result_file : Bytes
result_file = codes "result.json"

-- The output for diagnostics of a program with this role.
abbrev pub role_stderr : Bytes → SandboxResult → Bytes
role_stderr role r =
    if bytes_eq role (codes "interactor")
    then trim_space (file_of (codes "interactor_stderr") r)
    else trim_space (file_of stderr_file r)

abbrev pub special_result : SandboxResult → ℤ → Bytes → Bytes → Option ℤ → RunResult
special_result r status message diagnostic score = record {
  status = status;
  time_ms = ns_to_ms r.time;
  memory_kb = bytes_to_kb r.memory;
  user_output = [];
  message = message;
  diagnostic_message = diagnostic;
  score = score;
}

-- `specialResultFromRun`, where `unmarshal` is the decoding of the result file.
unfoldable pub special_result_from_run :
    (Bytes → Result Bytes ResultJson) → SandboxResult → Bytes → RunResult
special_result_from_run unmarshal r role =
    let stderr = role_stderr role r in
    let fallback = if is_empty stderr then r.status else stderr in
    if not (is_empty (trim_space (file_of result_file r)))
    then elim (parse_result_json (unmarshal (file_of result_file r))) [
      | err e ↦
          special_result r judgement_failed (role ++ codes " returned invalid result.json")
            (join_diagnostic e stderr) none
      | ok p ↦
          special_result r p.status p.message (join_diagnostic p.diagnostic_message stderr) p.score
    ]
    else if bytes_eq r.status (codes "Accepted")
    then special_result r accepted (codes "Accepted") stderr none
    else if eq_ℤ r.exit_status (pos 1) || eq_ℤ r.exit_status (pos 2)
    then special_result r wrong_answer (codes "Wrong Answer") fallback none
    else special_result r judgement_failed (role ++ codes " failed") fallback none

-- `runUserCase` from the answers of the sandbox on, where `none` is an error.
unfoldable pub run_user_case : Option (List SandboxResult) → Option RunResult
run_user_case (some (r ∷ [])) =
    let status = map_go_judge_status r.status in
    let message = trim_space (file_of stderr_file r) in
    some (record {
      status = status;
      time_ms = ns_to_ms r.time;
      memory_kb = bytes_to_kb r.memory;
      user_output = file_of stdout_file r;
      message = if is_empty message && not (eq_ℤ status accepted) then r.status else message;
      diagnostic_message = [];
      score = none;
    })
run_user_case _ = none

-- `RunCase`.
unfoldable pub compared : Case → Bool → RunResult → RunResult
compared tc remove_end_blank r =
    if eq_ℤ r.status accepted && not (same_output r.user_output tc.expected remove_end_blank)
    then record r { status = wrong_answer }
    else r

unfoldable pub run_plain_case : Case → Bool → Option (List SandboxResult) → Option RunResult
unfolding compared run_user_case
run_plain_case tc remove_end_blank answers = elim (run_user_case answers) [
  | none ↦ none
  | some r ↦ some (compared tc remove_end_blank r)
]

-- `RunSPJCase` for a task with a checker: the answers are those for the program and for the checker.
unfoldable pub run_spj_case :
    (Bytes → Result Bytes ResultJson)
    → Option (List SandboxResult)
    → Option (List SandboxResult)
    → Option RunResult
unfolding run_user_case special_result_from_run
run_spj_case unmarshal answers checked = elim (run_user_case answers) [
  | none ↦ none
  | some r ↦ if not (eq_ℤ r.status accepted) then some r else elim checked [
    | some (c ∷ []) ↦ some (special_result_from_run unmarshal c (codes "checker"))
    | _ ↦ none
  ]
]

-- `RunInteractiveCase` for the two answers: the interactor's verdict stands before the program's.
unfoldable pub run_interactive_case :
    (Bytes → Result Bytes ResultJson) → SandboxResult → SandboxResult → RunResult
unfolding special_result_from_run
run_interactive_case unmarshal user interactor =
    let status = map_go_judge_status user.status in
    let r = record (special_result_from_run unmarshal interactor (codes "interactor")) {
      time_ms = ns_to_ms (max user.time interactor.time);
      memory_kb = bytes_to_kb (max user.memory interactor.memory);
      user_output = [];
    } in
    let message = trim_space (file_of (codes "user_stderr") user) in
    if not (eq_ℤ r.status accepted)
    then r
    else if not (eq_ℤ status accepted)
    then record r { status = status; message = if is_empty message then user.status else message }
    else r
